-- ===== src/Hashgraph/SigPool/Tests.antt =====
-- Runs of the pool of signatures.
use babble.Base.{refl, pos, [], ◌∷◌, lookup, ℤ_discrete, ℕ_discrete, String-discrete, Bool-cases}
use babble.Common.Platform.Sample.{sample_platform}
use babble.Hashgraph.Event.{BlockSignature}
use babble.Hashgraph.SigPool.{SigPool, SigKey-discrete, sig_key_key, key_of, validator_hex}
use babble.Hashgraph.SigPool.Contents.{IsKeyed}

abbrev by_1 : BlockSignature
by_1 = record { validator = 1 ∷ []; index = pos 0; signature = "s1" }

abbrev by_2 : BlockSignature
by_2 = record { validator = 2 ∷ []; index = pos 0; signature = "s2" }

abbrev two_sigs : SigPool
two_sigs =
    (record { block = pos 0; validator = "0X01" }, by_1)
    ∷ (record { block = pos 0; validator = "0X02" }, by_2)
    ∷ []

two_sigs-IsKeyed : IsKeyed two_sigs
unfolding key_of validator_hex lookup SigKey-discrete ℤ_discrete ℕ_discrete String-discrete
    Bool-cases
two_sigs-IsKeyed = record { keyed = (refl, (refl, tt)); distinct = (refl, (refl, tt)) }

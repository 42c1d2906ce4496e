-- ===== src/Hashgraph/Block/Tests.antt =====
-- Runs of the signatures of a block.
use babble.Base.{
  ◌≡◌, ◌≢◌, refl, ap, String, true, false, pos, [], ◌∷◌, arith, String-discrete, Bool-cases,
}
use babble.Common.Platform.Sample.{sample_platform}
use babble.Hashgraph.Event.{BlockSignature}
use babble.Hashgraph.SigPool.{validator_hex}
use babble.Hashgraph.Ancestry.{same_text}
use babble.Hashgraph.Sample.{sample_crypto}

abbrev by_alice : BlockSignature
by_alice = record { validator = 1 ∷ []; index = pos 3; signature = "new" }

decoded : sample_platform.decode_hex (validator_hex by_alice) ≡ 1 ∷ []
unfolding validator_hex String-discrete Bool-cases
decoded = refl

differs : validator_hex by_alice ≢ "0X02"
unfolding validator_hex String-discrete Bool-cases
differs e =
    let apart : true ≡ false = ap (λ (s : String). same_text s "0X01") e in ground (arith, apart)

-- ===== src/Hashgraph/SigPool.antt =====
-- src/hashgraph/caches.go, SigPool: block signatures that wait to be matched with their blocks.
-- `BlockSignature.Key()` prints the block's index and the validator's key: here it is their pair.
pub mod Contents
pub mod Tests
use babble.Base.{
  ℕ, ℤ, String, List, [], ◌∷◌, map, GoMap, insert, delete, lookup, length, Key, int_key, string_key,
  ℤ_discrete, String-discrete,
}
use babble.Common.Platform.{Platform}
use babble.Hashgraph.Event.{BlockSignature}

pub record SigKey : Type 0 where
  pub block : ℤ
  pub validator : String

unfoldable pub SigKey-discrete : Discrete SigKey
SigKey-discrete = hlevel (ℤ_discrete, String-discrete)

instance abbrev pub sig_key_key : Key SigKey
sig_key_key = record { dec = SigKey-discrete }

abbrev pub SigPool : Type 0
SigPool = GoMap SigKey BlockSignature

module _ ⦃platform : Platform⦄ where
  unfoldable pub validator_hex : BlockSignature → String
  validator_hex bs = platform.encode_hex bs.validator

  unfoldable pub key_of : BlockSignature → SigKey
  key_of bs = record { block = bs.index; validator = validator_hex bs }

  unfoldable pub add_sig : SigPool → BlockSignature → SigPool
  add_sig sp bs = insert sp (key_of bs) bs

  unfoldable pub remove_slice : SigPool → List BlockSignature → SigPool
  remove_slice sp [] = sp
  remove_slice sp (s ∷ sigs) = remove_slice (delete sp (key_of s)) sigs

unfoldable pub remove_sig : SigPool → SigKey → SigPool
remove_sig sp key = delete sp key

unfoldable pub pool_len : SigPool → ℕ
pool_len sp = length sp

-- in the order of the map
unfoldable pub slice : SigPool → List BlockSignature
slice sp = map (λ e. e.1) sp

-- ===== src/Common/Platform.antt =====
-- What the program takes from Go's standard library and from its cryptography, as one interface.
-- `to_upper` is strings.ToUpper. `decode_hex` reads the hexadecimal text behind the prefix 0X
-- (src/common/hex.go calls encoding/hex; a text without room for the prefix would panic),
-- `decode_error` is the error that comes with the bytes when the text is not hexadecimal, and
-- `encode_hex` prints it. `hash32` is the FNV-1a hash of src/crypto/keys/public_key.go.
pub mod Sample
use babble.Base.{ℕ, String, List, Option}
use babble.Common.Errors.{Error}

abbrev pub Bytes : Type 0
Bytes = List ℕ

pub record Platform : Type 0 where
  pub to_upper : String → String
  pub decode_hex : String → Bytes
  pub decode_error : String → Option Error
  pub encode_hex : Bytes → String
  pub hash32 : Bytes → ℕ

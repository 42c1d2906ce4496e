-- ===== src/Common/Platform/Sample.antt =====
-- A small platform for tests: three public keys of one byte.
use babble.Base.{ℕ, ◌==◌, String, [], ◌∷◌, none, ite, String-discrete, if◌then◌else◌}
use babble.Common.Platform.{Platform, Bytes}

abbrev sample_decode : String → Bytes
sample_decode s =
    ite (String-discrete s "0X01") (1 ∷ [])
      (ite (String-discrete s "0x01") (1 ∷ []) (ite (String-discrete s "0X02") (2 ∷ []) (3 ∷ [])))

abbrev sample_encode : Bytes → String
sample_encode [] = "0X"
sample_encode (n ∷ ns) = if n == 1 then "0X01" else if n == 2 then "0X02" else "0X03"

abbrev sample_hash : Bytes → ℕ
sample_hash [] = 0
sample_hash (n ∷ ns) = n

instance abbrev pub sample_platform : Platform
sample_platform = record {
  to_upper = λ s. s;
  decode_hex = sample_decode;
  decode_error = λ _. none;
  encode_hex = sample_encode;
  hash32 = sample_hash;
}

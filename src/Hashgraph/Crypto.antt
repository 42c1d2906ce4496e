-- ===== src/Hashgraph/Crypto.antt =====
-- What the hashgraph takes from outside: the encodings as JSON (encoding/json, ugorji/go/codec),
-- SHA256, and the check of a signature by src/crypto/keys, which wraps crypto/ecdsa and math/big:
-- DecodeSignature, whose error it returns, ToPublicKey and Verify, which panics on an empty key.
-- The modelled records hold nothing that the encoders refuse, so `Hash()` returns no error.
use babble.Base.{ℤ, String, Bool}
use babble.Common.Platform.{Platform, Bytes}
use babble.Common.Errors.{Result}
use babble.Hashgraph.Event.{Event, EventBody, InternalTransactionBody}
use babble.Hashgraph.Frame.{Frame, BlockBody}

pub record Crypto : Type 0 where
  pub event_json : EventBody → Bytes
  pub itx_json : InternalTransactionBody → Bytes
  pub block_json : BlockBody → Bytes
  pub frame_json : Frame → Bytes
  pub sha256 : Bytes → Bytes
  pub check_signature : Bytes → Bytes → String → Result Bool
  -- the first number of a signature, by which frame events with the same timestamp are ordered
  pub signature_r : String → ℤ

module _ ⦃platform : Platform⦄ ⦃crypto : Crypto⦄ where
  -- Event.Hash, Event.Hex
  unfoldable pub event_hash : EventBody → Bytes
  event_hash body = crypto.sha256 (crypto.event_json body)

  unfoldable pub hex : Event → String
  unfolding event_hash
  hex e = platform.encode_hex (event_hash e.body)

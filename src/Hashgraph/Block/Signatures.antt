-- ===== src/Hashgraph/Block/Signatures.antt =====
-- What a block's signatures are after they are set.
use babble.Base.{String, ◌≡◌, ◌≢◌, refl, sym, lookup-insert, if_pos, if_neg, string_key}
use babble.Common.Errors.{ok}
use babble.Common.Platform.{Platform}
use babble.Hashgraph.Event.{BlockSignature}
use babble.Hashgraph.SigPool.{validator_hex}
use babble.Hashgraph.Crypto.{Crypto}
use babble.Hashgraph.Block.{Block, set_signature, get_signature, verify_signature}

module _ ⦃platform : Platform⦄ ⦃crypto : Crypto⦄ where
  -- A signature for the block that is set is read back under its validator's hexadecimal key, when
  -- decoding inverts encoding; another validator's is what it was; and since the body is as before,
  -- every signature verifies as before.
  pub get_signature-set_signature :
      (b : Block) (bs checked : BlockSignature) (other : String)
      → platform.decode_hex (validator_hex bs) ≡ bs.validator
      → bs.index ≡ b.body.index
      → validator_hex bs ≢ other
      → (get_signature (set_signature b bs) (validator_hex bs) ≡ ok bs)
        × (get_signature (set_signature b bs) other ≡ get_signature b other)
        × (verify_signature (set_signature b bs) checked ≡ verify_signature b checked)
  unfolding get_signature set_signature verify_signature
  get_signature-set_signature b bs checked other round_trip same h =
      let e = λ (q : String). lookup-insert b.signatures (validator_hex bs) q bs.signature in
      (rw (e _, if_pos _ refl, round_trip, sym same) refl, rw (e _, if_neg _ h) refl, refl)

-- ===== src/Hashgraph/Anchor/Repeated.antt =====
-- How CheckBlock counts the keys of the map of signatures.
use babble.Base.{
  ◌<◌, ◌≡◌, refl, String, List, [], ◌∷◌, map, length, is_some, lookup, true, All, arith, string_key,
  if_pos, ℕ_discrete,
}
use babble.Common.Errors.{ok}
use babble.Common.Platform.{Platform, Bytes}
use babble.Peers.PeerSet.{PeerSet, trust_count}
use babble.Hashgraph.Event.{BlockSignature}
use babble.Hashgraph.SigPool.{validator_hex}
use babble.Hashgraph.Crypto.{Crypto}
use babble.Hashgraph.Block.{Block, peers_hash, get_signatures, verify_signature}
use babble.Hashgraph.Anchor.{check_block, count_valid, same_bytes}

same_bytes_refl : (xs : Bytes) → same_bytes xs xs ≡ true
same_bytes_refl [] = refl
same_bytes_refl (x ∷ xs) = rw (if_pos (ℕ_discrete x x) refl) (same_bytes_refl xs)

module _ ⦃platform : Platform⦄ ⦃crypto : Crypto⦄ where
  -- one signature of one validator, as `get_signatures` reads it from an entry
  abbrev pub entry_signature : Block → String → String → BlockSignature
  entry_signature b sig k = record {
    validator = platform.decode_hex k;
    index = b.body.index;
    signature = sig;
  }

  count_repeated :
      (b : Block) (ps : PeerSet) (v : Bytes) (sig : String) (keys : List String)
      → is_some (lookup ps.by_pub_key (platform.encode_hex v)) ≡ true
      → verify_signature b (record { validator = v; index = b.body.index; signature = sig })
        ≡ ok true
      → All (λ k. platform.decode_hex k ≡ v) keys
      → count_valid b ps (map (entry_signature b sig) keys) ≡ ok (length keys)
  unfolding validator_hex
  count_repeated b ps v sig [] member valid same = refl
  count_repeated b ps v sig (k ∷ keys) member valid same =
      rw (same.0)
        (rw member (rw valid (rw (count_repeated b ps v sig keys member valid same.1) refl)))

  map_entries :
      (b : Block) (sig : String) (keys : List String)
      → get_signatures (record b { signatures = map (λ k. (k, sig)) keys })
        ≡ map (entry_signature b sig) keys
  unfolding get_signatures
  map_entries b sig [] = refl
  map_entries b sig (k ∷ keys) = rw (map_entries b sig keys) refl

  -- If one validator's signature verifies for a block, then a block with that one signature under
  -- more keys than the trust count, all of them decoded as this validator, is accepted.
  pub check_block-repeated :
      (b : Block) (ps : PeerSet) (v : Bytes) (sig : String) (keys : List String)
      → peers_hash ps ≡ b.body.peers_hash
      → is_some (lookup ps.by_pub_key (platform.encode_hex v)) ≡ true
      → verify_signature b (record { validator = v; index = b.body.index; signature = sig })
        ≡ ok true
      → All (λ k. platform.decode_hex k ≡ v) keys
      → trust_count ps < length keys
      → check_block (record b { signatures = map (λ k. (k, sig)) keys }) ps ≡ ok tt
  unfolding check_block verify_signature
  check_block-repeated b ps v sig keys hash member valid same more = rw hash (
      rw (same_bytes_refl b.body.peers_hash) (
        rw (map_entries b sig keys)
          (rw (count_repeated b ps v sig keys member valid same) (ground (arith, more)))))

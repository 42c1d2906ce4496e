-- ===== src/Hashgraph/Anchor/Tests.antt =====
-- Runs of the checks of a block's signatures.
use babble.Base.{
  count, ◌≡◌, refl, ◌<◌, true, is_some, lookup, pos, [], ◌∷◌, arith, ℕ_discrete, String-discrete,
  Bool-cases, string_key,
}
use babble.Common.Errors.{ok}
use babble.Common.Platform.Sample.{sample_platform}
use babble.Peers.Peer.{pub_key_bytes}
use babble.Peers.PeerSet.{trust_count, len}
use babble.Hashgraph.Block.{Block, peers_hash, get_signatures, verify_signature}
use babble.Hashgraph.SigPool.{validator_hex}
use babble.Hashgraph.State.{Hashgraph, new_hashgraph}
use babble.Hashgraph.InmemStore.{new_inmem_store}
use babble.Hashgraph.Anchor.{check_block, process_sig_pool}
use babble.Hashgraph.Anchor.Sound.{is_valid, check_block_sound}
use babble.Hashgraph.Anchor.Repeated.{check_block-repeated}
use babble.Hashgraph.Anchor.Signed.{Progress, process_sig_pool-Progress}
use babble.Hashgraph.Sample.{sample_crypto, only_alice, three_peers, block_3}

abbrev signed : Block
signed = block_3 (("0X01", "sig") ∷ []) (1 ∷ [])

accepted : check_block signed only_alice ≡ ok tt
unfolding check_block peers_hash pub_key_bytes get_signatures validator_hex verify_signature
    trust_count len lookup ℕ_discrete String-discrete Bool-cases
accepted = refl

check_block_sound_example :
    (peers_hash only_alice ≡ 1 ∷ [])
    × (trust_count only_alice < count (is_valid signed only_alice) (get_signatures signed))
check_block_sound_example = check_block_sound signed only_alice accepted

three_hash : peers_hash three_peers ≡ 1 ∷ 2 ∷ 3 ∷ []
unfolding peers_hash pub_key_bytes String-discrete Bool-cases
three_hash = refl

member : is_some (lookup three_peers.by_pub_key (sample_platform.encode_hex (1 ∷ []))) ≡ true
unfolding lookup String-discrete Bool-cases
member = refl

-- one signature of one of three peers, under two spellings of its key
check_block-repeated_example :
    check_block (block_3 (("0X01", "sig") ∷ ("0x01", "sig") ∷ []) (1 ∷ 2 ∷ 3 ∷ [])) three_peers
    ≡ ok tt
unfolding verify_signature trust_count len String-discrete Bool-cases
check_block-repeated_example =
    check_block-repeated (block_3 [] (1 ∷ 2 ∷ 3 ∷ [])) three_peers (1 ∷ []) "sig"
      ("0X01" ∷ "0x01" ∷ []) three_hash member refl (refl, (refl, tt)) (omega arith)

abbrev with_pool : Hashgraph
with_pool = record (new_hashgraph (new_inmem_store 4)) {
  pending_signatures =
      (
        record { block = pos 3; validator = "0X01" },
        record { validator = 1 ∷ []; index = pos 3; signature = "sig" },
      )
      ∷ [];
}

process_sig_pool-Progress_example : Progress with_pool (process_sig_pool with_pool).1
process_sig_pool-Progress_example = process_sig_pool-Progress with_pool

-- ===== src/Hashgraph/Anchor.antt =====
-- src/hashgraph/hashgraph.go: the signatures of blocks. ProcessSigPool matches the pending signatures
-- with their blocks, SetAnchorBlock keeps the last block with enough of them, and CheckBlock checks a
-- block that another node sends. Log messages are left out.
pub mod Sound
pub mod Signed
pub mod Repeated
pub mod Tests
use babble.Base.{
  ℕ, suc, ◌+◌, ℤ, String, List, [], ◌∷◌, length, lookup, Option, none, some, is_some, ltb, leb,
  ltb_ℤ, if◌then◌else◌, ite, ◌&&◌, ◌||◌, Bool, true, false, string_key, ℕ_discrete,
}
use babble.Common.Errors.{Result, ok, err, panic, message}
use babble.Common.Exec.{Exec, pure, fail, lift, gets, attempt, modify, continue, ◌>>=◌, ◌>>◌}
use babble.Common.Platform.{Platform, Bytes}
use babble.Peers.PeerSet.{PeerSet, trust_count}
use babble.Hashgraph.Event.{BlockSignature}
use babble.Hashgraph.SigPool.{SigPool, validator_hex, key_of, remove_sig, slice}
use babble.Hashgraph.PeerSetCache.{get_peer_set}
use babble.Hashgraph.Crypto.{Crypto}
use babble.Hashgraph.Block.{Block, peers_hash, get_signatures, set_signature, verify_signature}
use babble.Hashgraph.InmemStore.{InmemStore, get_block, set_block}
use babble.Hashgraph.State.{Hashgraph, on_store}

-- `h.AnchorBlock == nil || block.Index() > *h.AnchorBlock`
abbrev pub is_above : ℤ → Option ℤ → Bool
is_above i none = true
is_above i (some a) = ltb_ℤ a i

-- the anchor after a block with a peer-set is proposed
unfoldable pub next_anchor : Option ℤ → Block → PeerSet → Option ℤ
next_anchor anchor b ps =
    if ltb (trust_count ps) (length b.signatures) && is_above b.body.index anchor
    then some b.body.index
    else anchor

-- Store.GetPeerSet for the block's round
abbrev pub peer_set_of : Block → Hashgraph → Result PeerSet
peer_set_of b h = get_peer_set h.store.peer_set_cache b.body.round_received

unfoldable pub set_anchor_block : Block → Exec Hashgraph (Unit {0})
set_anchor_block b h =
    continue (peer_set_of b h)
      (λ ps.
        modify (λ (g : Hashgraph). record g { anchor_block = next_anchor g.anchor_block b ps }))
      h

abbrev pub same_bytes : Bytes → Bytes → Bool
same_bytes [] [] = true
same_bytes (x ∷ xs) (y ∷ ys) = ite (ℕ_discrete x y) (same_bytes xs ys) false
same_bytes _ _ = false

-- `ok, _ := block.Verify(s)`: an error counts as invalid
abbrev pub verified : Result Bool → Result Bool
verified (err e) = ok false
verified r = r

abbrev pub count_if : Result Bool → Result ℕ → Result ℕ
count_if panic r = panic
count_if (ok true) (ok n) = ok (suc n)
count_if _ r = r

abbrev pub enough : Result ℕ → ℕ → Result (Unit {0})
enough (ok n) trust = if leb n trust then err (message "Not enough valid signatures") else ok tt
enough (err e) trust = err e
enough panic trust = panic

module _ ⦃platform : Platform⦄ ⦃crypto : Crypto⦄ where
  -- the loop of CheckBlock
  abbrev pub count_valid : Block → PeerSet → List BlockSignature → Result ℕ
  count_valid b ps [] = ok 0
  count_valid b ps (s ∷ sigs) =
      let rest = count_valid b ps sigs in
      if is_some (lookup ps.by_pub_key (validator_hex s))
      then count_if (verified (verify_signature b s)) rest
      else rest

  unfoldable pub check_block : Block → PeerSet → Result (Unit {0})
  check_block b ps =
      if same_bytes (peers_hash ps) b.body.peers_hash
      then enough (count_valid b ps (get_signatures b)) (trust_count ps)
      else err (message "Wrong PeerSet")

  -- what one turn of the loop of ProcessSigPool does with a block and its peer-set
  abbrev pub accept_signature : Result Bool → BlockSignature → Block → Exec Hashgraph (Unit {0})
  accept_signature (err e) bs b = fail e
  accept_signature panic bs b = lift panic
  accept_signature (ok false) bs b = pure tt
  accept_signature (ok true) bs b = do
    attempt (on_store (set_block (set_signature b bs)))
    set_anchor_block (set_signature b bs)
    modify (λ (h : Hashgraph). record h {
      pending_signatures = remove_sig h.pending_signatures (key_of bs);
    })

  abbrev pub match_signature : Result Block → BlockSignature → Exec Hashgraph (Unit {0})
  match_signature (err e) bs h = (ok tt, h)
  match_signature panic bs h = (panic, h)
  match_signature (ok b) bs h = elim (peer_set_of b h) [
    | err e ↦ (ok tt, h)
    | panic ↦ (panic, h)
    | ok ps ↦
        if is_some (lookup ps.by_pub_key (validator_hex bs))
        then accept_signature (verify_signature b bs) bs b h
        else (ok tt, h)
  ]

  unfoldable pub process_signature : BlockSignature → Exec Hashgraph (Unit {0})
  process_signature bs = do b ← attempt (on_store (get_block bs.index)); match_signature b bs

  -- the loop, over the signatures that the pool had at its start
  abbrev pub process_signatures : List BlockSignature → Exec Hashgraph (Unit {0})
  process_signatures [] = pure tt
  process_signatures (bs ∷ sigs) = process_signature bs >> process_signatures sigs

  unfoldable pub process_sig_pool : Exec Hashgraph (Unit {0})
  process_sig_pool h = process_signatures (slice h.pending_signatures) h

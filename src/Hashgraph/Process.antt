-- ===== src/Hashgraph/Process.antt =====
-- src/hashgraph/hashgraph.go, ProcessDecidedRounds: the rounds that are decided become frames and
-- blocks, in order; and InsertEventAndRunConsensus. The commit callback is a parameter: it may change
-- the hashgraph and the object that it belongs to, and its error is only logged.
pub mod Pipeline
pub mod Onward
pub mod Turns
pub mod Order
pub mod Tests
use babble.Base.{
  ℕ, ℤ, pos, ◌+ℤ◌, ◌-ℤ◌, String, List, [], ◌∷◌, length, Option, none, some, ltb, ltb_ℤ, leb,
  if◌then◌else◌, ◌||◌, not, Bool, true, false,
}
use babble.Common.Errors.{Result, ok, err, panic}
use babble.Common.Exec.{Exec, pure, attempt, modify, for_each, ◌>>=◌, ◌>>◌}
use babble.Common.Platform.{Platform}
use babble.Peers.PeerSet.{PeerSet}
use babble.Hashgraph.Event.{Event, FrameEvent, is_loaded}
use babble.Hashgraph.Frame.{Frame}
use babble.Hashgraph.Crypto.{Crypto}
use babble.Hashgraph.Block.{Block, new_block_from_frame}
use babble.Hashgraph.PendingRounds.{PendingRound, ordered_pending_rounds, clean}
use babble.Hashgraph.InmemStore.{get_round, set_block, add_consensus_event, store_peer_set}
use babble.Hashgraph.State.{Hashgraph, on_store, set_last_consensus_round}
use babble.Hashgraph.State.Owner.{Owner, on_hashgraph}
use babble.Hashgraph.Insert.{renamed, insert_event}
use babble.Hashgraph.Divide.{divide_rounds}
use babble.Hashgraph.Voting.{decide_fame}
use babble.Hashgraph.Received.{decide_round_received}
use babble.Hashgraph.Frames.{get_frame}

-- `h.LastConsensusRound == nil || r.Index > *h.LastConsensusRound`
abbrev pub is_later : ℤ → Option ℤ → Bool
is_later i none = true
is_later i (some last) = ltb_ℤ last i

-- the last consensus round after a round is processed
unfoldable pub note_processed : ℤ → Hashgraph → Hashgraph
note_processed i h = if is_later i h.last_consensus_round then set_last_consensus_round i h else h

-- what comes of a round, and of those after it: the rounds that were processed
abbrev pub go_on :
    {S : Type 0}
    → Result (Unit {0})
    → ℤ
    → (S → Result (Unit {0}) × S × List ℤ)
    → S
    → Result (Unit {0}) × S × List ℤ
go_on (ok _) i rest s = let (r, t, done) = rest s in (r, t, i ∷ done)
go_on (err e) i rest s = (err e, s, [])
go_on panic i rest s = (panic, s, [])

-- the processed rounds leave the queue
abbrev pub without_rounds : List ℤ → Hashgraph → Hashgraph
without_rounds done h = record h { pending_rounds = clean h.pending_rounds done }

module _ ⦃platform : Platform⦄ ⦃crypto : Crypto⦄ where
  -- Init
  unfoldable pub init : PeerSet → Exec Hashgraph (Unit {0})
  init peer_set = do
    r ← attempt (on_store (store_peer_set (pos 0) peer_set))
    renamed "Error setting PeerSet" r

  -- an event of a frame is counted
  unfoldable pub count_consensus_event : FrameEvent → Hashgraph → Hashgraph
  count_consensus_event e h = record h {
    store = add_consensus_event e.core h.store;
    consensus_transactions = h.consensus_transactions +ℤ pos (length e.core.body.transactions);
    pending_loaded_events =
        if is_loaded e.core then h.pending_loaded_events -ℤ pos 1 else h.pending_loaded_events;
  }

  abbrev pub count_consensus_events : List FrameEvent → Hashgraph → Hashgraph
  count_consensus_events [] h = h
  count_consensus_events (e ∷ es) h = count_consensus_events es (count_consensus_event e h)

  -- a block has transactions or internal transactions
  abbrev pub has_payload : Block → Bool
  has_payload b = ltb 0 (length b.body.transactions) || ltb 0 (length b.body.internal_transactions)

  -- the block that a frame becomes
  abbrev pub block_of : Frame → Hashgraph → Block
  block_of frame h = new_block_from_frame (h.store.last_block +ℤ pos 1) frame

  abbrev pub note_commited : Frame → Hashgraph → Hashgraph
  note_commited frame h = record h { last_commited_round_events = pos (length frame.events) }

  module _ {S : Type 0} ⦃owner : Owner S⦄ (commit : Block → Exec S (Unit {0})) where
    abbrev pub commit_if : Bool → Block → Exec S (Unit {0})
    commit_if false block = pure tt
    commit_if true block = do
      on_hashgraph (on_store (set_block block))
      attempt (commit block)
      pure tt

    abbrev pub commit_frame : Frame → Exec S (Unit {0})
    commit_frame frame s =
        let block = block_of frame (owner.hashgraph_of s) in commit_if (has_payload block) block s

    unfoldable pub process_frame : Frame → Exec S (Unit {0})
    process_frame frame = do
      on_hashgraph (modify (count_consensus_events frame.events))
      commit_frame frame
      on_hashgraph (modify (note_commited frame))

    abbrev pub process_unless_empty : List FrameEvent → Frame → Exec S (Unit {0})
    process_unless_empty [] frame = pure tt
    process_unless_empty (e ∷ es) frame = process_frame frame

    -- one turn of the loop, but for its end
    abbrev pub process_frame_of : ℕ → ℤ → Exec S (Unit {0})
    process_frame_of n i = do
      on_hashgraph (on_store (get_round i))
      r ← on_hashgraph (attempt (get_frame n i))
      frame ← on_hashgraph (renamed "Getting Frame" r)
      process_unless_empty frame.events frame

    unfoldable pub process_round : ℕ → ℤ → Exec S (Unit {0})
    process_round n i = do process_frame_of n i; on_hashgraph (modify (note_processed i))

    -- the loop over the pending rounds, which ends at the first that is not decided
    unfoldable pub process_rounds : ℕ → List PendingRound → S → Result (Unit {0}) × S × List ℤ
    process_rounds n [] s = (ok tt, s, [])
    process_rounds n (p ∷ ps) s = elim p.decided [
      | false ↦ (ok tt, s, [])
      | true ↦ let (r, t) = process_round n p.index s in go_on r p.index (process_rounds n ps) t
    ]

    -- The processed rounds leave the queue on every path.
    unfoldable pub process_decided_rounds : ℕ → Exec S (Unit {0})
    process_decided_rounds n s =
        let pending = (owner.hashgraph_of s).pending_rounds in
        let (r, t, done) = process_rounds n (ordered_pending_rounds pending) s in
        (r, owner.with_hashgraph t (without_rounds done (owner.hashgraph_of t)))

    unfoldable pub insert_event_and_run_consensus : ℕ → Event → Bool → Exec S (Unit {0})
    insert_event_and_run_consensus n event wire_info = do
      on_hashgraph (insert_event n event wire_info)
      on_hashgraph (divide_rounds n)
      on_hashgraph decide_fame
      on_hashgraph (decide_round_received n)
      process_decided_rounds n

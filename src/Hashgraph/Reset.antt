-- ===== src/Hashgraph/Reset.antt =====
-- src/hashgraph/hashgraph.go, Reset and InsertFrameEvent: a hashgraph that starts from the block and the
-- frame that another node sends. The signatures that are pending, the cache of timestamps and the
-- counters of transactions stay.
use babble.Base.{ℕ, ℤ, pos, [], none, if◌then◌else◌, string_key}
use babble.Common.Errors.{Result, ok, err, panic, is_store, key_not_found}
use babble.Common.Exec.{Exec, pure, fail, lift, attempt, modify, for_each, ◌>>=◌, ◌>>◌}
use babble.Common.Platform.{Platform}
use babble.Common.Lru.{new_lru}
use babble.Hashgraph.Event.{Event, FrameEvent, set_round, set_lamport_timestamp}
use babble.Hashgraph.Frame.{Frame}
use babble.Hashgraph.Crypto.{Crypto, hex}
use babble.Hashgraph.Block.{Block}
use babble.Hashgraph.RoundInfo.{RoundInfo, new_round_info, add_created_event}
use babble.Hashgraph.PendingRounds.{new_pending_rounds_cache}
use babble.Hashgraph.InmemStore
use babble.Hashgraph.InmemStore.{
  InmemStore, get_event, set_event, get_round, set_round_info, get_block, set_block, set_frame,
  add_consensus_event, last_consensus_event_from,
}
use babble.Hashgraph.State.{Hashgraph, on_store, set_last_consensus_round, set_round_lower_bound}
use babble.Hashgraph.Coordinates.{init_event_coordinates}
use babble.Hashgraph.Rounds.{keep_round, keep_witness, keep_timestamp}
use babble.Hashgraph.Frames.{sorted_frame_events}
use babble.Hashgraph.Insert.{store_event}

-- the round that is stored, or a new one
abbrev pub info_or_new : Result RoundInfo → Exec Hashgraph RoundInfo
info_or_new (ok info) = pure info
info_or_new (err e) = if is_store e key_not_found then pure new_round_info else fail e
info_or_new panic = lift panic

abbrev pub round_or_new : ℤ → Exec Hashgraph RoundInfo
round_or_new r = do info ← attempt (on_store (get_round r)); info_or_new info

module _ ⦃platform : Platform⦄ ⦃crypto : Crypto⦄ where
  -- the caches of answers, so that they are not computed again
  abbrev pub keep_answers : FrameEvent → Hashgraph → Hashgraph
  keep_answers e h =
      keep_timestamp (hex e.core) e.timestamp
        (keep_witness (hex e.core) e.witness (keep_round (hex e.core) e.frame_round h))

  -- the frame's event with the numbers that the frame gives it
  abbrev pub numbered : FrameEvent → Event
  numbered e = set_lamport_timestamp (set_round e.core e.frame_round) e.timestamp

  unfoldable pub insert_frame_event : ℕ → FrameEvent → Exec Hashgraph (Unit {0})
  insert_frame_event n e = do
    modify (keep_answers e)
    info ← round_or_new e.frame_round
    on_store (set_round_info e.frame_round (add_created_event info (hex e.core) e.witness))
    placed ← on_store (init_event_coordinates (numbered e))
    store_event n placed
    modify (λ (h : Hashgraph). record h { store = add_consensus_event placed h.store })

  -- what Reset clears
  abbrev pub cleared : Hashgraph → Hashgraph
  cleared h = record h {
    last_consensus_round = none;
    first_consensus_round = none;
    anchor_block = none;
    undetermined_events = [];
    pending_rounds = new_pending_rounds_cache;
    pending_loaded_events = pos 0;
    topological_index = pos 0;
    ancestor_cache = new_lru h.store.cache_size;
    self_ancestor_cache = new_lru h.store.cache_size;
    strongly_see_cache = new_lru h.store.cache_size;
    round_cache = new_lru h.store.cache_size;
    witness_cache = new_lru h.store.cache_size;
  }

  unfoldable pub reset : ℕ → Block → Frame → Exec Hashgraph (Unit {0})
  reset n block frame = do
    modify cleared
    on_store (InmemStore.reset frame)
    for_each (sorted_frame_events frame) (insert_frame_event n)
    on_store (set_block block)
    modify (set_last_consensus_round block.body.round_received)
    modify (set_round_lower_bound block.body.round_received)

-- ===== src/Hashgraph/InmemStore/Calls.antt =====
-- The calls of the store, each of which keeps its invariant.
use babble.Base.{
  ℤ, String, List, [], ◌∷◌, GoMap, lookup, is_some, Bool-cases, inl, inr, nat_key, int_key,
}
use babble.Common.Errors.{Result, ok, err, panic}
use babble.Common.Exec.{Exec, modify, gets, continue, ◌>>=◌}
use babble.Common.Lru.Holds.{get-Holds}
use babble.Common.Platform.{Platform}
use babble.Peers.Peer.{Peer, peer_id}
use babble.Peers.PeerSet.{PeerSet, new_peer_set}
use babble.Hashgraph.PeerSetCache.{PeerSetCache, set_peer_set}
use babble.Hashgraph.ParticipantEvents.{add_peer}
use babble.Hashgraph.Event.{Event}
use babble.Hashgraph.Frame.{Frame}
use babble.Hashgraph.Block.{Block}
use babble.Hashgraph.RoundInfo.{RoundInfo}
use babble.Hashgraph.Crypto.{Crypto}
use babble.Hashgraph.InmemStore.{
  InmemStore, new_inmem_store, add_participant, root_if_added, add_participants, with_participants,
  store_peer_set, store_peer_sets, emptied, reset, get_event, set_event, get_round, set_round_info,
  round_witnesses, round_events, get_block, set_block, get_frame, set_frame, add_consensus_event,
}
use babble.Hashgraph.InmemStore.Contents.{set_block_lem, set_frame_lem}
use babble.Hashgraph.InmemStore.Invariant.{
  IsStore, new_inmem_store-IsStore, get_event-IsStore, set_event-IsStore, set_round_info-IsStore,
  get_block-IsStore, put_block-IsStore, get_frame-IsStore, put_frame-IsStore,
}

module _ ⦃platform : Platform⦄ ⦃crypto : Crypto⦄ where
  get_round-IsStore : (r : ℤ) (s : InmemStore) → IsStore s → IsStore (get_round r s).1
  unfolding get_round
  get_round-IsStore r s h = record {
    sized = h.sized;
    events = h.events;
    rounds = get-Holds _ s.round_cache r h.rounds;
    blocks = h.blocks;
    frames = h.frames;
  }

  set_frame-IsStore : (f : Frame) (s : InmemStore) → IsStore s → IsStore (set_frame f s).1
  set_frame-IsStore f s h =
      rw (set_frame_lem f s) (put_frame-IsStore f _ (get_frame-IsStore f.round s h))

  -- a participant's events and root are not in the caches
  add_participant-IsStore : (p : Peer) (s : InmemStore) → IsStore s → IsStore (add_participant p s)
  unfolding add_participant
  add_participant-IsStore p s h =
      elim (Bool-cases
        (is_some (lookup s.participant_events_cache.participants.by_id (peer_id p)))) [
          | inl e ↦ rw e (rooted (ok tt) s h)
          | inr e ↦
              let added = add_peer s.participant_events_cache p in
              rw e (
                rooted added.0 (record s { participant_events_cache = added.1 })
                  (record {
                    sized = h.sized;
                    events = h.events;
                    rounds = h.rounds;
                    blocks = h.blocks;
                    frames = h.frames;
                  }))
        ]
    where
      rooted : (r : Result (Unit {0})) (s : InmemStore) → IsStore s → IsStore (root_if_added r p s)
      rooted (err e) s h = h
      rooted panic s h = h
      rooted (ok _) s h = record {
        sized = h.sized;
        events = h.events;
        rounds = h.rounds;
        blocks = h.blocks;
        frames = h.frames;
      }

  add_participants-IsStore :
      (ps : List Peer) (s : InmemStore) → IsStore s → IsStore (add_participants ps s)
  add_participants-IsStore [] s h = h
  add_participants-IsStore (p ∷ ps) s h =
      add_participants-IsStore ps (add_participant p s) (add_participant-IsStore p s h)

  store_peer_set-IsStore :
      (r : ℤ) (ps : PeerSet) (s : InmemStore) → IsStore s → IsStore (store_peer_set r ps s).1
  unfolding store_peer_set
  store_peer_set-IsStore r ps s h = by_result (set_peer_set s.peer_set_cache r ps)
    where
      by_result : (c : Result PeerSetCache) → IsStore (with_participants c ps s).1
      by_result (err e) = h
      by_result panic = h
      by_result (ok c) =
          add_participants-IsStore ps.peers (record s { peer_set_cache = c })
            (record {
              sized = h.sized;
              events = h.events;
              rounds = h.rounds;
              blocks = h.blocks;
              frames = h.frames;
            })

  -- a method that keeps the invariant on every path
  unfoldable Keeps : {A : Type 0} → Exec InmemStore A → Type 0
  Keeps m = (s : InmemStore) → IsStore s → IsStore (m s).1

  continue-Keeps :
      {A B : Type 0} (r : Result A) (f : A → Exec InmemStore B)
      → ((a : A) → Keeps (f a))
      → Keeps (continue r f)
  unfolding Keeps
  continue-Keeps (ok a) f u s h = u a s h
  continue-Keeps (err e) f u s h = h
  continue-Keeps panic f u s h = h

  bind-Keeps :
      {A B : Type 0} (m : Exec InmemStore A) (f : A → Exec InmemStore B)
      → Keeps m
      → ((a : A) → Keeps (f a))
      → Keeps (m >>= f)
  unfolding Keeps
  bind-Keeps m f t u s h = continue-Keeps (m s).0 f u (m s).1 (t s h)

  store_peer_sets-IsStore : (sets : GoMap ℤ (List Peer)) → Keeps (store_peer_sets sets)
  unfolding Keeps
  store_peer_sets-IsStore [] s h = h
  store_peer_sets-IsStore ((r, ps) ∷ sets) s h =
      bind-Keeps (store_peer_set r (new_peer_set ps)) (λ _. store_peer_sets sets)
        (store_peer_set-IsStore r (new_peer_set ps)) (λ _. store_peer_sets-IsStore sets) s h

  -- the store that Reset starts from
  emptied-IsStore : (frame : Frame) → Keeps (modify (emptied frame))
  unfolding Keeps new_inmem_store
  emptied-IsStore frame s h =
      let fresh = new_inmem_store-IsStore s.cache_size h.sized in
      record {
        sized = fresh.sized;
        events = fresh.events;
        rounds = fresh.rounds;
        blocks = fresh.blocks;
        frames = fresh.frames;
      }

  roots_read : Keeps (gets (λ (s : InmemStore). s.roots))
  unfolding Keeps
  roots_read s h = h

  set_frame-Keeps : (f : Frame) → Keeps (set_frame f)
  unfolding Keeps
  set_frame-Keeps f = set_frame-IsStore f

  reset-IsStore : (frame : Frame) → Keeps (reset frame)
  unfolding reset
  reset-IsStore frame = bind-Keeps (modify (emptied frame)) _ (emptied-IsStore frame) (λ _.
      bind-Keeps (store_peer_sets frame.peer_sets) _ (store_peer_sets-IsStore frame.peer_sets) (λ _.
        bind-Keeps (gets (λ (s : InmemStore). s.roots)) _ roots_read
          (λ roots. set_frame-Keeps (record frame { roots = roots }))))

  round_witnesses-IsStore : (r : ℤ) (s : InmemStore) → IsStore s → IsStore (round_witnesses r s).1
  unfolding round_witnesses
  round_witnesses-IsStore r s h = get_round-IsStore r s h

  round_events-IsStore : (r : ℤ) (s : InmemStore) → IsStore s → IsStore (round_events r s).1
  unfolding round_events
  round_events-IsStore r s h = get_round-IsStore r s h

  -- Calls of the store, and the store that each leaves.
  pub data Call : Type 0 where
    gets_event : String → Call
    sets_event : Event → Call
    gets_round : ℤ → Call
    sets_round : ℤ → RoundInfo → Call
    gets_block : ℤ → Call
    sets_block : Block → Call
    gets_frame : ℤ → Call
    sets_frame : Frame → Call
    adds_consensus_event : Event → Call
    gets_round_witnesses : ℤ → Call
    gets_round_events : ℤ → Call
    sets_peer_set : ℤ → PeerSet → Call
    resets : Frame → Call

  abbrev pub after : InmemStore → Call → InmemStore
  after s (gets_event key) = (get_event key s).1
  after s (sets_event e) = (set_event e s).1
  after s (gets_round r) = (get_round r s).1
  after s (sets_round r i) = (set_round_info r i s).1
  after s (gets_block i) = (get_block i s).1
  after s (sets_block b) = (set_block b s).1
  after s (gets_frame r) = (get_frame r s).1
  after s (sets_frame f) = (set_frame f s).1
  after s (adds_consensus_event e) = add_consensus_event e s
  after s (gets_round_witnesses r) = (round_witnesses r s).1
  after s (gets_round_events r) = (round_events r s).1
  after s (sets_peer_set r ps) = (store_peer_set r ps s).1
  after s (resets f) = (reset f s).1

  -- Every call of the store that reads or writes its caches of events, rounds, blocks and frames, Reset
  -- included, keeps the invariant: the size of a cache is positive, an event is cached under its own
  -- hash, a block under its index, a frame under its round, no cache exceeds its size or has a key
  -- twice, and no cached round or block is above the counters of the last ones.
  pub after-IsStore : (s : InmemStore) (call : Call) → IsStore s → IsStore (after s call)
  unfolding Keeps add_consensus_event
  after-IsStore s (gets_event key) h = get_event-IsStore key s h
  after-IsStore s (sets_event e) h = set_event-IsStore e s h
  after-IsStore s (gets_round r) h = get_round-IsStore r s h
  after-IsStore s (sets_round r i) h = set_round_info-IsStore r i s h
  after-IsStore s (gets_block i) h = get_block-IsStore i s h
  after-IsStore s (sets_block b) h =
      rw (set_block_lem b s, after) (put_block-IsStore b _ (get_block-IsStore b.body.index s h))
  after-IsStore s (gets_frame r) h = get_frame-IsStore r s h
  after-IsStore s (sets_frame f) h = set_frame-IsStore f s h
  after-IsStore s (adds_consensus_event e) h = record {
    sized = h.sized;
    events = h.events;
    rounds = h.rounds;
    blocks = h.blocks;
    frames = h.frames;
  }
  after-IsStore s (gets_round_witnesses r) h = round_witnesses-IsStore r s h
  after-IsStore s (gets_round_events r) h = round_events-IsStore r s h
  after-IsStore s (sets_peer_set r ps) h = store_peer_set-IsStore r ps s h
  after-IsStore s (resets f) h = reset-IsStore f s h

-- ===== src/Hashgraph/InmemStore.antt =====
-- src/hashgraph/inmem_store.go: the store in memory, limited by `cache_size` items in each cache.
-- A read of a cache moves the entry to the front, so it changes the store. The cached objects are
-- values here: the program writes an object back after it changes it.
pub mod Contents
pub mod Invariant
pub mod Calls
pub mod Reads
pub mod Tests
use babble.Base.{
  ℕ, suc, ℤ, pos, minus_one, String, List, [], ◌∷◌, length, GoMap, insert, lookup, Option, none,
  some, is_some, ltb_ℤ, if◌then◌else◌, Bool, true, false, string_key, nat_key, int_key,
}
use babble.Common.Errors.{
  Error, Name, base, Label, text, number, Result, ok, err, panic, new_store_err, key_not_found,
  is_store, or_err,
}
use babble.Common.Exec.{Exec, pure, fail, gets, attempt, modify, for_each, continue, ◌>>=◌, ◌>>◌}
use babble.Common.Platform.{Platform}
use babble.Common.Lru
use babble.Common.Lru.{Lru, new_lru}
use babble.Common.RollingIndex.{RollingIndex, new_rolling_index, set_item, get_last_window}
use babble.Peers.Peer.{Peer, peer_id, pub_key_string}
use babble.Peers.PeerSet.{PeerSet, new_peer_set}
use babble.Hashgraph.PeerSetCache.{
  PeerSetCache, new_peer_set_cache, set_peer_set, get_peer_set, get_all, first_round,
}
use babble.Hashgraph.Event.{Event, creator}
use babble.Hashgraph.Frame.{Root, Frame, new_root}
use babble.Hashgraph.Crypto.{Crypto, hex}
use babble.Hashgraph.Block.{Block}
use babble.Hashgraph.RoundInfo.{RoundInfo, witnesses}
use babble.Hashgraph.ParticipantEvents.{
  ParticipantEventsCache, new_participant_events, add_peer, events_after, event_at, last_event,
  set_event_of, known_events,
}

pub record InmemStore : Type 0 where
  pub cache_size : ℕ
  pub event_cache : Lru String Event
  pub round_cache : Lru ℤ RoundInfo
  pub block_cache : Lru ℤ Block
  pub frame_cache : Lru ℤ Frame
  pub consensus_cache : RollingIndex String
  pub tot_consensus_events : ℕ
  pub peer_set_cache : PeerSetCache
  pub participant_events_cache : ParticipantEventsCache
  pub roots : GoMap String Root
  pub last_round : ℤ
  pub last_consensus_events : GoMap String String
  pub last_block : ℤ

module _ ⦃platform : Platform⦄ where
  unfoldable pub new_inmem_store : ℕ → InmemStore
  new_inmem_store cache_size = record {
    cache_size = cache_size;
    event_cache = new_lru cache_size;
    round_cache = new_lru cache_size;
    block_cache = new_lru cache_size;
    frame_cache = new_lru cache_size;
    consensus_cache = new_rolling_index (base "ConsensusCache") cache_size;
    tot_consensus_events = 0;
    peer_set_cache = new_peer_set_cache;
    participant_events_cache = new_participant_events cache_size;
    roots = [];
    last_round = minus_one;
    last_consensus_events = [];
    last_block = minus_one;
  }

  -- `addParticipant`, whose error `SetPeerSet` ignores; the root is added unless AddPeer fails
  abbrev pub root_if_added : Result (Unit {0}) → Peer → InmemStore → InmemStore
  root_if_added (ok _) p s = record s {
    roots =
        if is_some (lookup s.roots (pub_key_string p))
        then s.roots
        else insert s.roots (pub_key_string p) new_root;
  }
  root_if_added _ p s = s

  unfoldable pub add_participant : Peer → InmemStore → InmemStore
  add_participant p s =
      if is_some (lookup s.participant_events_cache.participants.by_id (peer_id p))
      then root_if_added (ok tt) p s
      else (let (r, pec) = add_peer s.participant_events_cache p in
          root_if_added r p (record s { participant_events_cache = pec }))

  abbrev pub add_participants : List Peer → InmemStore → InmemStore
  add_participants [] s = s
  add_participants (p ∷ ps) s = add_participants ps (add_participant p s)

  -- the participants of a peer-set that the cache of peer-sets has taken
  abbrev pub with_participants : Result PeerSetCache → PeerSet → Exec InmemStore (Unit {0})
  with_participants (ok c) peer_set s =
      (ok tt, add_participants peer_set.peers (record s { peer_set_cache = c }))
  with_participants (err e) peer_set s = (err e, s)
  with_participants panic peer_set s = (panic, s)

  unfoldable pub store_peer_set : ℤ → PeerSet → Exec InmemStore (Unit {0})
  store_peer_set round peer_set s =
      with_participants (set_peer_set s.peer_set_cache round peer_set) peer_set s

-- a value that a cache gave, or the error for a missing key
abbrev pub found : {A : Type 0} → Option A → String → Label → Result A
found a cache key = or_err a (new_store_err (base cache) key_not_found key)

unfoldable pub get_event : String → Exec InmemStore Event
get_event key s =
    let (c, e) = Lru.get s.event_cache key in
    (found e "EventCache" (text key), record s { event_cache = c })

unfoldable pub get_round : ℤ → Exec InmemStore RoundInfo
get_round r s =
    let (c, e) = Lru.get s.round_cache r in
    (found e "RoundCache" (number r), record s { round_cache = c })

unfoldable pub set_round_info : ℤ → RoundInfo → Exec InmemStore (Unit {0})
set_round_info r round s = (
  ok tt,
  record s {
    round_cache = (Lru.add s.round_cache r round).0;
    last_round = if ltb_ℤ s.last_round r then r else s.last_round;
  },
)

-- nothing for a round that is missing
abbrev pub witnesses_of : Result RoundInfo → List String
witnesses_of (ok round) = witnesses round
witnesses_of _ = []

abbrev pub count_events_of : Result RoundInfo → ℕ
count_events_of (ok round) = length round.created_events
count_events_of _ = 0

unfoldable pub round_witnesses : ℤ → InmemStore → List String × InmemStore
round_witnesses r s = let (a, s') = get_round r s in (witnesses_of a, s')

unfoldable pub round_events : ℤ → InmemStore → ℕ × InmemStore
round_events r s = let (a, s') = get_round r s in (count_events_of a, s')

unfoldable pub get_root : InmemStore → String → Result Root
get_root s participant = found (lookup s.roots participant) "RootCache" (text participant)

unfoldable pub get_block : ℤ → Exec InmemStore Block
get_block index s =
    let (c, e) = Lru.get s.block_cache index in
    (found e "BlockCache" (number index), record s { block_cache = c })

unfoldable pub get_frame : ℤ → Exec InmemStore Frame
get_frame index s =
    let (c, e) = Lru.get s.frame_cache index in
    (found e "FrameCache" (number index), record s { frame_cache = c })

-- `if err != nil && !IsStore(err, KeyNotFound) { return err }`
abbrev pub unless_missing : {A : Type 0} → Result A → Exec InmemStore (Unit {0})
unless_missing (ok a) = pure tt
unless_missing (err e) = if is_store e key_not_found then pure tt else fail e
unless_missing panic = λ s. (panic, s)

abbrev pub put_block : Block → InmemStore → InmemStore
put_block block s = record s {
  block_cache = (Lru.add s.block_cache block.body.index block).0;
  last_block = if ltb_ℤ s.last_block block.body.index then block.body.index else s.last_block;
}

abbrev pub put_frame : Frame → InmemStore → InmemStore
put_frame frame s = record s { frame_cache = (Lru.add s.frame_cache frame.round frame).0 }

unfoldable pub set_block : Block → Exec InmemStore (Unit {0})
set_block block = do
  r ← attempt (get_block block.body.index)
  unless_missing r
  modify (put_block block)

unfoldable pub set_frame : Frame → Exec InmemStore (Unit {0})
set_frame frame = do r ← attempt (get_frame frame.round); unless_missing r; modify (put_frame frame)

module _ ⦃platform : Platform⦄ ⦃crypto : Crypto⦄ where
  -- a new event is noted among its creator's
  abbrev pub note_new : Result Event → Event → Exec InmemStore (Unit {0})
  note_new (ok e) event = pure tt
  note_new panic event = λ s. (panic, s)
  note_new (err e) event =
      if is_store e key_not_found
      then (λ s.
          let (r, pec) =
            set_event_of s.participant_events_cache (creator event) (hex event) event.body.index in
          (r, record s { participant_events_cache = pec }))
      else fail e

  abbrev pub put_event : Event → InmemStore → InmemStore
  put_event event s = record s { event_cache = (Lru.add s.event_cache (hex event) event).0 }

  unfoldable pub set_event : Event → Exec InmemStore (Unit {0})
  set_event event = do
    r ← attempt (get_event (hex event))
    note_new r event
    modify (put_event event)

  -- the error of the rolling index is ignored: what it refuses is not in the window
  abbrev pub cached_or : RollingIndex String → Result (RollingIndex String) → RollingIndex String
  cached_or old (ok r) = r
  cached_or old _ = old

  unfoldable pub add_consensus_event : Event → InmemStore → InmemStore
  add_consensus_event event s = record s {
    consensus_cache =
        cached_or s.consensus_cache
          (set_item s.consensus_cache (hex event) (pos s.tot_consensus_events));
    tot_consensus_events = suc s.tot_consensus_events;
    last_consensus_events = insert s.last_consensus_events (creator event) (hex event);
  }

unfoldable pub consensus_events : InmemStore → List String
consensus_events s = (get_last_window s.consensus_cache).0

module _ ⦃platform : Platform⦄ where
  abbrev pub store_peer_sets : GoMap ℤ (List Peer) → Exec InmemStore (Unit {0})
  store_peer_sets [] = pure tt
  store_peer_sets ((round, ps) ∷ rest) = do
    store_peer_set round (new_peer_set ps)
    store_peer_sets rest

  abbrev pub emptied : Frame → InmemStore → InmemStore
  emptied frame s = record (new_inmem_store s.cache_size) {
    tot_consensus_events = s.tot_consensus_events;
    roots = frame.roots;
  }

  -- The counter of consensus events stays. `s.roots = frame.Roots` shares the map, so the frame that
  -- is stored has the roots that the peer-sets added.
  unfoldable pub reset : Frame → Exec InmemStore (Unit {0})
  reset frame = do
    modify (emptied frame)
    store_peer_sets frame.peer_sets
    roots ← gets (λ (s : InmemStore). s.roots)
    set_frame (record frame { roots = roots })

unfoldable pub last_consensus_event_from : InmemStore → String → Option String
last_consensus_event_from s participant = lookup s.last_consensus_events participant

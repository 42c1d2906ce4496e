-- ===== src/Hashgraph/Frames.antt =====
-- src/hashgraph/hashgraph.go, GetFrame and GetAnchorBlockWithFrame, with the sorted events of a frame
-- (frame.go, event.go). The events of a stored frame are the cached events themselves; what is read
-- from them there, their bodies and signatures, never changes.
pub mod Quiet
pub mod Sorted
pub mod Tests
use babble.Base.{
  ℕ, zero, suc, ℤ, pos, negsuc, ◌-ℤ◌, String, List, [], ◌∷◌, ◌++◌, GoMap, insert, lookup, Option,
  none, some, is_some, ltb_ℤ, leb_ℤ, eqb_ℤ, if◌then◌else◌, ◌||◌, not, Bool, true, false, string_key,
}
use mathlib.Core.List.{reverse}
use babble.Common.Errors.{Result, ok, err, panic, Error, message, is_store, key_not_found}
use babble.Common.Exec.{Exec, pure, fail, lift, gets, attempt, modify, for_each, ◌>>=◌, ◌>>◌}
use babble.Common.Platform.{Platform}
use babble.Common.Lru.{new_lru}
use babble.Common.Median.{median}
use babble.Peers.Peer.{Peer, peer_id}
use babble.Peers.PeerSet.{PeerSet}
use babble.Hashgraph.Event.{Event, FrameEvent, creator, set_round, set_lamport_timestamp}
use babble.Hashgraph.Frame
use babble.Hashgraph.Frame.{Frame, Root, new_root}
use babble.Hashgraph.Crypto.{Crypto, hex}
use babble.Hashgraph.Block.{Block}
use babble.Hashgraph.RoundInfo.{
  RoundInfo, RoundEvent, new_round_info, add_created_event, famous_witnesses,
}
use babble.Hashgraph.PendingRounds.{new_pending_rounds_cache}
use babble.Hashgraph.PeerSetCache.{get_all, first_round}
use babble.Hashgraph.ParticipantEvents.{event_at}
use babble.Hashgraph.InmemStore
use babble.Hashgraph.InmemStore.{
  InmemStore, get_event, set_event, get_round, set_round_info, get_block, set_block, set_frame,
  add_consensus_event, last_consensus_event_from,
}
use babble.Hashgraph.State.{Hashgraph, on_store, set_last_consensus_round, set_round_lower_bound}
use babble.Hashgraph.Ancestry.{same_text}
use babble.Hashgraph.Coordinates.{init_event_coordinates}
use babble.Hashgraph.Rounds.{
  peer_set_at, round, lamport_timestamp, keep_round, keep_witness, keep_timestamp,
}
use babble.Hashgraph.Roots.{create_frame_event, create_root}
use babble.Hashgraph.Insert.{renamed, store_event}

module _ ⦃platform : Platform⦄ ⦃crypto : Crypto⦄ where
  -- SortedFrameEvents.Less
  unfoldable pub frame_event_less : FrameEvent → FrameEvent → Bool
  frame_event_less a b =
      if eqb_ℤ a.timestamp b.timestamp
      then ltb_ℤ (crypto.signature_r a.core.signature) (crypto.signature_r b.core.signature)
      else ltb_ℤ a.timestamp b.timestamp

  -- `sort.Sort`; events of which neither is less may come in any order there
  abbrev pub insert_frame_event_sorted : FrameEvent → List FrameEvent → List FrameEvent
  insert_frame_event_sorted a [] = a ∷ []
  insert_frame_event_sorted a (b ∷ bs) =
      let rest = insert_frame_event_sorted a bs in
      if frame_event_less b a then b ∷ rest else a ∷ b ∷ bs

  unfoldable pub sort_frame_events : List FrameEvent → List FrameEvent
  sort_frame_events [] = []
  sort_frame_events (a ∷ events) = insert_frame_event_sorted a (sort_frame_events events)

  -- the events of the roots
  abbrev pub root_events : GoMap String Root → List FrameEvent
  root_events [] = []
  root_events ((p, r) ∷ roots) = r.events ++ root_events roots

  -- Frame.SortedFrameEvents
  unfoldable pub sorted_frame_events : Frame → List FrameEvent
  sorted_frame_events f = sort_frame_events (root_events f.roots ++ f.events)

  abbrev pub create_frame_events : ℕ → List String → Exec Hashgraph (List FrameEvent)
  create_frame_events n [] = pure []
  create_frame_events n (x ∷ xs) = do
    e ← create_frame_event n x
    es ← create_frame_events n xs
    pure (e ∷ es)

  -- a root for a participant that has none yet
  abbrev pub root_unless :
      Option Root → ℕ → String → String → GoMap String Root → Exec Hashgraph (GoMap String Root)
  root_unless (some r) n participant head roots = pure roots
  root_unless none n participant head roots = do
    r ← create_root n participant head
    pure (insert roots participant r)

  -- the roots of the creators of the events, which are in order
  unfoldable pub roots_of_events :
      ℕ → List FrameEvent → GoMap String Root → Exec Hashgraph (GoMap String Root)
  roots_of_events n [] roots = pure roots
  roots_of_events n (e ∷ es) roots = do
    more ←
        root_unless (lookup roots (creator e.core)) n (creator e.core) e.core.body.self_parent roots
    roots_of_events n es more

  -- `!ok || firstRound > roundReceived`
  abbrev pub joins_later : ℤ × Bool → ℤ → Bool
  joins_later (first, known) round_received = not known || ltb_ℤ round_received first

  abbrev pub or_empty_text : Option String → String
  or_empty_text none = ""
  or_empty_text (some x) = x

  abbrev pub root_of_known :
      Bool → ℕ → String → GoMap String Root → Exec Hashgraph (GoMap String Root)
  root_of_known true n p roots = pure roots
  root_of_known false n p roots = do
    last ← gets (λ (h : Hashgraph). last_consensus_event_from h.store p)
    root_unless (lookup roots p) n p (or_empty_text last) roots

  -- the roots of the other participants that were known before the frame's round
  unfoldable pub roots_of_known :
      ℕ → ℤ → GoMap String Peer → GoMap String Root → Exec Hashgraph (GoMap String Root)
  roots_of_known n round_received [] roots = pure roots
  roots_of_known n round_received ((p, peer) ∷ rest) roots = do
    first ← gets (λ (h : Hashgraph). first_round h.store.peer_set_cache (peer_id peer))
    more ← root_of_known (joins_later first round_received) n p roots
    roots_of_known n round_received rest more

  abbrev pub timestamps_of : List String → Exec Hashgraph (List ℤ)
  timestamps_of [] = pure []
  timestamps_of (x ∷ xs) = do
    e ← on_store (get_event x)
    ts ← timestamps_of xs
    pure (e.body.timestamp ∷ ts)

  abbrev pub frame_of :
      ℤ → PeerSet → List FrameEvent → GoMap String Root → GoMap ℤ (List Peer) → List ℤ → Frame
  frame_of round_received ps received roots peer_sets timestamps = record {
    round = round_received;
    peers = ps.peers;
    roots = roots;
    events = sort_frame_events received;
    peer_sets = peer_sets;
    timestamp = median timestamps;
  }

  abbrev pub keep_frame : Frame → Exec Hashgraph Frame
  keep_frame frame = do on_store (set_frame frame); pure frame

  unfoldable pub build_frame : ℕ → ℤ → Exec Hashgraph Frame
  build_frame n round_received = do
    info ← on_store (get_round round_received)
    ps ← peer_set_at round_received
    received ← create_frame_events n info.received_events
    first_roots ← roots_of_events n (sort_frame_events received) []
    repertoire ← gets (λ (h : Hashgraph). h.store.peer_set_cache.repertoire_by_pub_key)
    roots ← roots_of_known n round_received repertoire first_roots
    peer_sets ← gets (λ (h : Hashgraph). get_all h.store.peer_set_cache)
    timestamps ← timestamps_of (famous_witnesses info)
    keep_frame (frame_of round_received ps received roots peer_sets timestamps)

  abbrev pub stored_or_built : Result Frame → ℕ → ℤ → Exec Hashgraph Frame
  stored_or_built (ok f) n round_received = pure f
  stored_or_built (err e) n round_received =
      if is_store e key_not_found then build_frame n round_received else fail e
  stored_or_built panic n round_received = lift panic

  unfoldable pub get_frame : ℕ → ℤ → Exec Hashgraph Frame
  get_frame n round_received = do
    stored ← attempt (on_store (InmemStore.get_frame round_received))
    stored_or_built stored n round_received

  abbrev pub frame_of_anchor : Option ℤ → ℕ → Exec Hashgraph (Block × Frame)
  frame_of_anchor none n = fail (message "No Anchor Block")
  frame_of_anchor (some anchor) n = do
    block ← on_store (get_block anchor)
    frame ← get_frame n block.body.round_received
    pure (block, frame)

  unfoldable pub get_anchor_block_with_frame : ℕ → Exec Hashgraph (Block × Frame)
  get_anchor_block_with_frame n h = frame_of_anchor h.anchor_block n h

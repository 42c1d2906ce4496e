-- ===== src/Node/Core/Diff.antt =====
-- src/node/core.go, eventDiff, toWire and fromWire, and the answer to a SyncRequest in
-- src/node/node_rpc.go. sort.Sort leaves events with the same topological index, such as
-- those of a frame after Reset, in an order of its own: here they stay in the order in which they came.
pub mod Sorted
pub mod Delivered
use babble.Base.{
  ℕ, ℤ, pos, negsuc, zero, suc, minus_one, String, List, [], ◌∷◌, ◌++◌, map, GoMap, lookup, length,
  Option, none, some, nat_key, ltb_ℤ, if◌then◌else◌, Bool, true, false,
}
use babble.Common.Errors
use babble.Common.Errors.{Result, ok, err, panic}
use babble.Common.Exec.{Exec, pure, lift, gets, attempt, ◌>>=◌}
use babble.Common.Platform.{Platform}
use babble.Peers.Peer.{Peer, pub_key_string}
use babble.Hashgraph.Event.{Event, WireEvent, to_wire}
use babble.Hashgraph.ParticipantEvents.{known_events, events_after}
use babble.Hashgraph.InmemStore.{InmemStore, get_event}
use babble.Hashgraph.Wire.{read_wire_info}

-- what another node knows of a participant, or -1
abbrev pub known_or_none : Option ℤ → ℤ
known_or_none none = minus_one
known_or_none (some i) = i

abbrev pub get_events : List String → Exec InmemStore (List Event)
get_events [] = pure []
get_events (x ∷ xs) = do ev ← get_event x; evs ← get_events xs; pure (ev ∷ evs)

abbrev pub insert_topological : Event → List Event → List Event
insert_topological a [] = a ∷ []
insert_topological a (b ∷ events) =
    if ltb_ℤ b.topological_index a.topological_index
    then b ∷ insert_topological a events
    else a ∷ b ∷ events

-- ByTopologicalOrder
unfoldable pub sort_topological : List Event → List Event
sort_topological [] = []
sort_topological (a ∷ events) = insert_topological a (sort_topological events)

module _ ⦃platform : Platform⦄ where
  -- one turn of the loop of eventDiff
  abbrev pub unknown_of : Option Peer → ℤ → Exec InmemStore (List Event)
  unknown_of none skip = pure []
  unknown_of (some peer) skip = do
    pec ← gets (λ (s : InmemStore). s.participant_events_cache)
    hashes ← lift (events_after pec (pub_key_string peer) skip)
    get_events hashes

  abbrev pub unknown_events : GoMap ℕ ℤ → GoMap ℕ ℤ → Exec InmemStore (List Event)
  unknown_events other_known [] = pure []
  unknown_events other_known ((id, last) ∷ known) = do
    peer ← gets (λ (s : InmemStore). lookup s.peer_set_cache.repertoire_by_id id)
    evs ← unknown_of peer (known_or_none (lookup other_known id))
    more ← unknown_events other_known known
    pure (evs ++ more)

  unfoldable pub event_diff : GoMap ℕ ℤ → Exec InmemStore (List Event)
  event_diff other_known = do
    known ← gets (λ (s : InmemStore). known_events s.participant_events_cache)
    unknown ← unknown_events other_known known
    pure (sort_topological unknown)

  -- fromWire
  abbrev pub from_wire : List WireEvent → InmemStore → Result (List Event)
  from_wire [] s = ok []
  from_wire (w ∷ ws) s =
      Errors.◌>>=◌ (read_wire_info s w) (λ ev. Errors.◌>>=◌ (from_wire ws s) (λ evs. ok (ev ∷ evs)))

-- `eventDiff[:limit]`
abbrev pub first_events : ℕ → List Event → List Event
first_events limit [] = []
first_events zero (e ∷ es) = []
first_events (suc n) (e ∷ es) = e ∷ first_events n es

abbrev pub smaller : ℤ → ℤ → ℤ
smaller a b = if ltb_ℤ a b then a else b

-- the events that are sent: a negative limit is out of range for a slice
unfoldable pub limited : ℤ → List Event → Result (List Event)
limited (negsuc n) [] = ok []
limited (negsuc n) (e ∷ es) = panic
limited (pos n) es = ok (first_events n es)

-- the events of the answer to a SyncRequest, with the error that goes with them
abbrev pub sync_answer : ℤ → ℤ → Result (List Event) → Result (List WireEvent × Bool)
sync_answer limit own (ok diff) =
    Errors.◌>>=◌ (limited (smaller limit own) diff) (λ es. ok (map to_wire es, false))
sync_answer limit own (err e) = ok ([], true)
sync_answer limit own panic = panic

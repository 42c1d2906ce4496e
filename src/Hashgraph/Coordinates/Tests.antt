-- ===== src/Hashgraph/Coordinates/Tests.antt =====
-- Runs of the checks of a self-parent and of the coordinates.
use babble.Base.{
  ◌≡◌, refl, ℕ, pos, [], ◌∷◌, some, lookup, arith, ℕ_discrete, String-discrete, Bool-cases, true,
  string_key,
}
use babble.Common.Errors.{ok, err, self_parent, base}
use babble.Common.Platform.Sample.{sample_platform}
use babble.Peers.Peer.{peer_id, pub_key_bytes}
use babble.Hashgraph.Event.{Event, CoordinatesMap, bare_event, creator}
use babble.Hashgraph.ParticipantEvents.{participant_id, set_event_of}
use babble.Hashgraph.Coordinates.{check_self_parent, merge_ancestors}
use babble.Hashgraph.Coordinates.Merge.{lookup-merge_ancestors}
use babble.Hashgraph.Coordinates.Parents.{
  IsKnown, recorded, check_self_parent-next, check_self_parent-inside,
}
use babble.Hashgraph.Sample.{with_events, event_body}

-- a second event on top of `e1`
abbrev fork : Event
fork = bare_event (event_body 2 "e1") "sig"

two_known : IsKnown (with_events ("e0" ∷ "e1" ∷ []) 1) (creator fork) 0
unfolding participant_id creator lookup peer_id pub_key_bytes ℕ_discrete String-discrete Bool-cases
two_known = record {
  key = 1;
  index = record { name = base "p"; size = 10; last_index = pos 1; items = "e0" ∷ "e1" ∷ [] };
  found = refl;
  indexed = refl;
  rolling = record { last = refl; fresh = λ e. ground arith };
}

check_self_parent-next_example :
    check_self_parent (recorded (with_events ("e0" ∷ "e1" ∷ []) 1) (creator fork) "e2" (pos 2)) fork
    ≡ err (self_parent "Self-parent not last known event by creator" true)
unfolding String-discrete Bool-cases two_known
check_self_parent-next_example =
    check_self_parent-next (with_events ("e0" ∷ "e1" ∷ []) 1) fork "e2" 0 two_known

check_self_parent-inside_example :
    ((set_event_of
        (with_events ("e0" ∷ "e1" ∷ []) 1).participant_events_cache
        (creator fork)
        "x"
        (pos 0)).0
      ≡ ok tt)
    × (check_self_parent
          (recorded (with_events ("e0" ∷ "e1" ∷ []) 1) (creator fork) "x" (pos 0))
          fork
        ≡ check_self_parent (with_events ("e0" ∷ "e1" ∷ []) 1) fork)
unfolding two_known
check_self_parent-inside_example =
    check_self_parent-inside (with_events ("e0" ∷ "e1" ∷ []) 1) fork "x" 0 0 two_known (omega arith)
      (omega arith)

-- coordinates of one participant
abbrev at_index : ℕ → CoordinatesMap
at_index i = ("0X01", record { hash = "h"; index = pos i }) ∷ []

lookup-merge_ancestors_example :
    lookup (merge_ancestors (at_index 1) (at_index 4)) "0X01"
    ≡ some (record { hash = "h"; index = pos 4 })
unfolding lookup String-discrete Bool-cases
lookup-merge_ancestors_example = lookup-merge_ancestors (at_index 1) (at_index 4) "0X01" (refl, tt)

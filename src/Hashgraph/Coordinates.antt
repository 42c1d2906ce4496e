-- ===== src/Hashgraph/Coordinates.antt =====
-- src/hashgraph/hashgraph.go: the checks of an event's parents, and the coordinates of its last
-- ancestors and first descendants when it is inserted.
pub mod Merge
pub mod Parents
pub mod Tests
use babble.Base.{
  String, ℤ, List, [], ◌∷◌, GoMap, insert, lookup, Option, none, some, ltb_ℤ, if◌then◌else◌, Bool,
  true, false, string_key,
}
use babble.Common.Errors.{Result, ok, err, panic, Error, self_parent, message, is_store, empty}
use babble.Common.Exec.{Exec, pure, fail, attempt, ◌>>=◌}
use babble.Common.Platform.{Platform}
use babble.Hashgraph.Ancestry.{same_text}
use babble.Hashgraph.Event.{Event, EventCoordinates, CoordinatesMap, creator}
use babble.Hashgraph.Crypto.{Crypto, hex}
use babble.Hashgraph.InmemStore.{InmemStore, get_event}
use babble.Hashgraph.ParticipantEvents.{last_event}

module _ ⦃platform : Platform⦄ where
  -- the message of a failed lookup is left out
  abbrev pub self_parent_check : Result String → String → Result (Unit {0})
  self_parent_check (ok last) parent =
      if same_text parent last
      then ok tt
      else err (self_parent "Self-parent not last known event by creator" true)
  self_parent_check (err e) parent =
      if is_store e empty
      then (if same_text parent "" then ok tt else err (self_parent "" false))
      else err (self_parent "" false)
  self_parent_check panic parent = panic

  unfoldable pub check_self_parent : InmemStore → Event → Result (Unit {0})
  check_self_parent s event =
      self_parent_check (last_event s.participant_events_cache (creator event))
        event.body.self_parent

abbrev pub other_parent_check : Result Event → Exec InmemStore (Unit {0})
other_parent_check (ok e) = pure tt
other_parent_check (err e) = fail (message "Other-parent not known")
other_parent_check panic = λ s. (panic, s)

unfoldable pub check_other_parent : Event → Exec InmemStore (Unit {0})
check_other_parent event =
    if same_text event.body.other_parent ""
    then pure tt
    else do r ← attempt (get_event event.body.other_parent); other_parent_check r

-- whether an entry is missing or below another
abbrev pub is_below : Option EventCoordinates → EventCoordinates → Bool
is_below none c = true
is_below (some d) c = ltb_ℤ d.index c.index

-- the loop over the other-parent's last ancestors
unfoldable pub merge_ancestors : CoordinatesMap → CoordinatesMap → CoordinatesMap
merge_ancestors la [] = la
merge_ancestors la ((p, ola) ∷ rest) =
    merge_ancestors (if is_below (lookup la p) ola then insert la p ola else la) rest

abbrev pub parents_ancestors : Result Event → Result Event → CoordinatesMap
parents_ancestors (ok sp) (ok op) = merge_ancestors sp.last_ancestors op.last_ancestors
parents_ancestors (ok sp) _ = sp.last_ancestors
parents_ancestors _ (ok op) = op.last_ancestors
parents_ancestors _ _ = []

module _ ⦃platform : Platform⦄ ⦃crypto : Crypto⦄ where
  unfoldable pub own_coordinates : Event → EventCoordinates
  own_coordinates e = record { hash = hex e; index = e.body.index }

  -- the event with its coordinates
  abbrev pub with_coordinates : Event → CoordinatesMap → Event
  with_coordinates e la = record e {
    last_ancestors = insert la (creator e) (own_coordinates e);
    first_descendants = insert [] (creator e) (own_coordinates e);
  }

  unfoldable pub init_event_coordinates : Event → Exec InmemStore Event
  init_event_coordinates event = do
    sp ← attempt (get_event event.body.self_parent)
    op ← attempt (get_event event.body.other_parent)
    pure (with_coordinates event (parents_ancestors sp op))

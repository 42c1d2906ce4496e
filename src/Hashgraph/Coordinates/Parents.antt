-- ===== src/Hashgraph/Coordinates/Parents.antt =====
-- What the check of the self-parent accepts after an event of the same creator is recorded.
use babble.Base.{
  ℕ, suc, ◌+◌, ◌-◌, ◌<◌, ◌≤◌, ◌≡◌, ◌∙◌, refl, sym, ℤ, pos, String, List, length, set, drop, some,
  lookup, nat_key, arith, if◌then◌else◌, true,
}
use babble.Common.Errors.{Result, ok, err, self_parent}
use babble.Common.Platform.{Platform}
use babble.Common.RollingIndex.{RollingIndex, set_item}
use babble.Common.RollingIndex.Window.{IsRolling}
use babble.Common.RollingIndex.Updates.{set_item_lem, appended, dropped}
use babble.Hashgraph.ParticipantEvents.{participant_id, last_event, set_event_of}
use babble.Hashgraph.ParticipantEvents.Last.{
  last_event-set_event_of, last_event_lem, last?-append, last?-set,
}
use babble.Hashgraph.Event.{Event, creator}
use babble.Hashgraph.Ancestry.{same_text}
use babble.Hashgraph.InmemStore.{InmemStore}
use babble.Hashgraph.Coordinates.{check_self_parent, self_parent_check}

-- The store knows the creator, and its rolling index starts at `first`.
pub record IsKnown ⦃platform : Platform⦄ (s : InmemStore) (participant : String) (first : ℕ)
    : Type 0 where
  pub key : ℕ
  pub index : RollingIndex String
  pub found : participant_id s.participant_events_cache participant ≡ ok key
  pub indexed : lookup s.participant_events_cache.rim.mapping key ≡ some index
  pub rolling : IsRolling index first

-- the events of a known participant
abbrev pub events_of :
    ⦃platform : Platform⦄
    → {s : InmemStore} {participant : String} {first : ℕ} → IsKnown s participant first
    → List String
events_of k = k.index.items

module _ ⦃platform : Platform⦄ where
  -- the store after an event of the participant is recorded
  abbrev pub recorded : InmemStore → String → String → ℤ → InmemStore
  recorded s participant hash i = record s {
    participant_events_cache = (set_event_of s.participant_events_cache participant hash i).1;
  }

  check_lem :
      (s : InmemStore) (f : Event) (r : Result String)
      → last_event s.participant_events_cache (creator f) ≡ r
      → check_self_parent s f ≡ self_parent_check r f.body.self_parent
  unfolding check_self_parent
  check_lem s f r e = rw e refl

  -- Once an event of a known creator is recorded at the next index, exactly the events of this
  -- creator that name it as their self-parent pass the check; the others get the error that is
  -- normal.
  pub check_self_parent-next :
      (s : InmemStore) (f : Event) (hash : String) (first : ℕ) (k : IsKnown s (creator f) first)
      → check_self_parent (recorded s (creator f) hash (pos (first + length (events_of k)))) f ≡ (
          if same_text f.body.self_parent hash
          then ok tt
          else err (self_parent "Self-parent not last known event by creator" true))
  check_self_parent-next s f hash first k =
      let i = first + length k.index.items in
      let taken : set_item k.index hash (pos i) ≡ ok (appended k.index hash i) =
        set_item_lem k.index first k.rolling hash i ∙ ground arith in
      check_lem (recorded s (creator f) hash (pos i)) f (ok hash) (
        (last_event-set_event_of s.participant_events_cache (creator f) hash (pos i) k.key k.index
          (appended k.index hash i) k.found k.indexed taken).1
        ∙ rw (last?-append (drop (dropped k.index) k.index.items) hash) refl)

  -- An event that is recorded at an index that the creator's events have passed, within the window,
  -- takes the place of the event there, and every self-parent passes that passed before.
  pub check_self_parent-inside :
      (s : InmemStore) (f : Event) (hash : String) (first i : ℕ) (k : IsKnown s (creator f) first)
      → first ≤ i
      → suc i < first + length (events_of k)
      → ((set_event_of s.participant_events_cache (creator f) hash (pos i)).0 ≡ ok tt)
        × (check_self_parent (recorded s (creator f) hash (pos i)) f ≡ check_self_parent s f)
  check_self_parent-inside s f hash first i k from below =
      let replaced = record (k.index) { items = set k.index.items (i - first) hash } in
      let taken : set_item k.index hash (pos i) ≡ ok replaced =
        set_item_lem k.index first k.rolling hash i ∙ ground (arith, from, below) in
      let after =
        last_event-set_event_of s.participant_events_cache (creator f) hash (pos i) k.key k.index
          replaced k.found k.indexed taken in
      let before =
        last_event_lem s.participant_events_cache (creator f) k.key k.index k.found k.indexed in
      (
        after.0,
        check_lem _ f _ (after.1 ∙ rw (last?-set k.index.items (i - first) hash (omega arith)) refl)
            ∙ sym (check_lem s f _ before),
      )

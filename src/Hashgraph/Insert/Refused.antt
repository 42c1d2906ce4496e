-- ===== src/Hashgraph/Insert/Refused.antt =====
-- What an insertion leaves of the queues and the counters, on every path.
use babble.Base.{
  ◌≡◌, refl, ap, subst, ◌∙◌, ℕ, zero, suc, ℤ, pos, ◌+ℤ◌, String, List, [], ◌∷◌, ◌++◌, Bool, true,
  false, lookup, is_some, string_key,
}
use babble.Common.Errors.{Result, ok, err, panic}
use babble.Common.Exec.{Exec, attempt, lift, gets, modify, continue, for_each, ◌>>=◌}
use babble.Common.Platform.{Platform}
use babble.Hashgraph.Event.{Event, BlockSignature, creator}
use babble.Hashgraph.SigPool.{add_sig}
use babble.Hashgraph.Crypto.{Crypto, hex}
use babble.Hashgraph.InmemStore.{get_event, set_event}
use babble.Hashgraph.State.{Hashgraph, on_store}
use babble.Hashgraph.State.Quiet.{
  ledger, IsQuiet, make-IsQuiet, ledger_stays, read-IsQuiet, on_store-IsQuiet, attempt-IsQuiet,
  bind-IsQuiet, Ledger,
}
use babble.Hashgraph.Coordinates.{check_self_parent, check_other_parent, init_event_coordinates}
use babble.Hashgraph.Wire.{set_wire_info}
use babble.Hashgraph.Rounds.{witness}
use babble.Hashgraph.Rounds.Quiet.{witness-IsQuiet}
use babble.Hashgraph.Frames.Quiet.{renamed-IsQuiet}
use babble.Hashgraph.Insert.{
  renamed, verify_event, signature_check, write_event, and_no_error, unless_witness,
  with_descendant, note_descendant, at_ancestor, walk_down, update_ancestor_first_descendant,
  take_topological_index, wire_info_if, store_event, noted, place_event, add_pending_signatures,
  check_event, insert_event,
}

module _ ⦃platform : Platform⦄ ⦃crypto : Crypto⦄ where
  check_event-IsQuiet : (event : Event) → IsQuiet (check_event event)
  check_event-IsQuiet event =
      bind-IsQuiet (lift (signature_check (verify_event event))) _ (read-IsQuiet _) (λ _.
        bind-IsQuiet (gets (λ (h : Hashgraph). h.store)) _ (read-IsQuiet _) (λ s.
          bind-IsQuiet (lift (check_self_parent s event)) _ (read-IsQuiet _)
            (λ _. on_store-IsQuiet (check_other_parent event))))

  and_no_error-IsQuiet : (r : Result Bool) → IsQuiet (and_no_error r)
  and_no_error-IsQuiet (ok w) = read-IsQuiet _
  and_no_error-IsQuiet (err e) = read-IsQuiet _
  and_no_error-IsQuiet panic = read-IsQuiet _

  unless_witness-IsQuiet :
      (b : Bool) (go : String → Exec Hashgraph (Unit {0})) (x : String)
      → ((y : String) → IsQuiet (go y))
      → IsQuiet (unless_witness b go x)
  unless_witness-IsQuiet true go x t = read-IsQuiet _
  unless_witness-IsQuiet false go x t = t x

  note_descendant-IsQuiet :
      (b : Bool) (n : ℕ) (go : String → Exec Hashgraph (Unit {0})) (event : Event) (ah : String)
      (a : Event)
      → ((y : String) → IsQuiet (go y))
      → IsQuiet (note_descendant b n go event ah a)
  note_descendant-IsQuiet true n go event ah a t = read-IsQuiet _
  note_descendant-IsQuiet false n go event ah a t =
      bind-IsQuiet (modify (write_event ah (with_descendant event a))) _
        (make-IsQuiet _ (λ h. refl))
        (λ _.
          bind-IsQuiet (on_store (set_event (with_descendant event a))) _
            (on_store-IsQuiet (set_event (with_descendant event a)))
            (λ _.
              bind-IsQuiet (attempt (witness n ah)) _
                (attempt-IsQuiet (witness n ah) (witness-IsQuiet n ah))
                (λ r.
                  bind-IsQuiet (and_no_error r) _ (and_no_error-IsQuiet r)
                    (λ w. unless_witness-IsQuiet w go a.body.self_parent t))))

  at_ancestor-IsQuiet :
      (r : Result Event) (n : ℕ) (go : String → Exec Hashgraph (Unit {0})) (event : Event)
      (ah : String)
      → ((y : String) → IsQuiet (go y))
      → IsQuiet (at_ancestor r n go event ah)
  at_ancestor-IsQuiet (ok a) n go event ah t =
      note_descendant-IsQuiet (is_some (lookup a.first_descendants (creator event))) n go event ah a
        t
  at_ancestor-IsQuiet (err e) n go event ah t = read-IsQuiet _
  at_ancestor-IsQuiet panic n go event ah t = read-IsQuiet _

  walk_down-IsQuiet :
      (n steps : ℕ) (event : Event) (ah : String) → IsQuiet (walk_down n steps event ah)
  unfolding walk_down
  walk_down-IsQuiet n zero event ah = read-IsQuiet _
  walk_down-IsQuiet n (suc steps) event ah =
      bind-IsQuiet (attempt (on_store (get_event ah))) _
        (attempt-IsQuiet (on_store (get_event ah)) (on_store-IsQuiet (get_event ah)))
        (λ a.
          at_ancestor-IsQuiet a n (walk_down n steps event) event ah
            (walk_down-IsQuiet n steps event))

  for_each-IsQuiet :
      {A : Type 0} (xs : List A) (f : A → Exec Hashgraph (Unit {0}))
      → ((a : A) → IsQuiet (f a))
      → IsQuiet (for_each xs f)
  for_each-IsQuiet [] f t = read-IsQuiet _
  for_each-IsQuiet (x ∷ xs) f t =
      bind-IsQuiet (f x) (λ _. for_each xs f) (t x) (λ _. for_each-IsQuiet xs f t)

  store_event-IsQuiet : (n : ℕ) (event : Event) → IsQuiet (store_event n event)
  unfolding update_ancestor_first_descendant
  store_event-IsQuiet n event =
      bind-IsQuiet (attempt (on_store (set_event event))) _
        (attempt-IsQuiet (on_store (set_event event)) (on_store-IsQuiet (set_event event)))
        (λ stored.
          bind-IsQuiet (renamed "SetEvent" stored) _ (renamed-IsQuiet "SetEvent" stored) (λ _.
            bind-IsQuiet (attempt (update_ancestor_first_descendant n event)) _
              (attempt-IsQuiet (update_ancestor_first_descendant n event) (
                for_each-IsQuiet event.last_ancestors _
                  (λ c. walk_down-IsQuiet n n event c.1.hash)))
              (λ updated. renamed-IsQuiet "UpdateAncestorFirstDescendant" updated)))

  add_pending_signatures_lem :
      (sigs : List BlockSignature) (h : Hashgraph)
      → ((add_pending_signatures sigs h).undetermined_events ≡ h.undetermined_events)
        × ((add_pending_signatures sigs h).pending_rounds ≡ h.pending_rounds)
        × ((add_pending_signatures sigs h).topological_index ≡ h.topological_index)
        × ((add_pending_signatures sigs h).last_consensus_round ≡ h.last_consensus_round)
  add_pending_signatures_lem [] h = (refl, refl, refl, refl)
  add_pending_signatures_lem (bs ∷ sigs) h =
      add_pending_signatures_lem sigs
        (record h { pending_signatures = add_sig h.pending_signatures bs })

  -- what comes of an insertion that starts from a ledger: an error leaves it, and otherwise there is
  -- one more undetermined event
  abbrev Outcome : Ledger → Result (Unit {0}) × Hashgraph → Type 0
  Outcome l (ok _, g) =
      ((x : String) × (g.undetermined_events ≡ l.undetermined_events ++ x ∷ []))
      × (g.pending_rounds ≡ l.pending_rounds)
      × (g.topological_index ≡ l.topological_index)
      × (g.last_consensus_round ≡ l.last_consensus_round)
  Outcome l (err e, g) = ledger g ≡ l
  Outcome l (panic, g) = ledger g ≡ l

  then_Outcome :
      {A : Type 0} (r : Result A) (f : A → Exec Hashgraph (Unit {0})) (g : Hashgraph) (l : Ledger)
      → ledger g ≡ l
      → ((a : A) (k : Hashgraph) → Outcome (ledger k) (f a k))
      → Outcome l (continue r f g)
  then_Outcome (ok a) f g l e t = subst (λ l. Outcome l (f a g)) e (t a g)
  then_Outcome (err x) f g l e t = e
  then_Outcome panic f g l e t = e

  quiet_then :
      {A : Type 0} (m : Exec Hashgraph A) (f : A → Exec Hashgraph (Unit {0}))
      → IsQuiet m
      → ((a : A) (k : Hashgraph) → Outcome (ledger k) (f a k))
      → (h : Hashgraph) → Outcome (ledger h) ((m >>= f) h)
  quiet_then m f q t h = then_Outcome (m h).0 f (m h).1 (ledger h) (ledger_stays m q h) t

  wire_info_if-IsQuiet : (b : Bool) (event : Event) → IsQuiet (wire_info_if b event)
  wire_info_if-IsQuiet true event =
      bind-IsQuiet (attempt (on_store (set_wire_info event))) _
        (attempt-IsQuiet (on_store (set_wire_info event)) (on_store-IsQuiet (set_wire_info event)))
        (λ r. renamed-IsQuiet "SetWireInfo" r)
  wire_info_if-IsQuiet false event = read-IsQuiet _

  place_event-Outcome :
      (n : ℕ) (wire_info : Bool) (event : Event) (h : Hashgraph)
      → Outcome (ledger h) (place_event n wire_info event h)
  place_event-Outcome n wire_info event =
      quiet_then (wire_info_if wire_info event) _ (wire_info_if-IsQuiet wire_info event) (λ wired.
        quiet_then (on_store (init_event_coordinates wired)) _
          (on_store-IsQuiet (init_event_coordinates wired))
          (λ placed. quiet_then (store_event n placed) _ (store_event-IsQuiet n placed) (λ _ k.
            let (events, rounds, index, last) =
              add_pending_signatures_lem placed.body.block_signatures (noted placed k) in
            ((hex placed, events), rounds, index, last))))

  abbrev pub with_index : ℤ → Ledger → Ledger
  with_index i l = record l { topological_index = i }

  -- What an insertion leaves of the queues, the counters and the marks: all, but for the topological
  -- index, if it is not done; and one more undetermined event if it is.
  abbrev pub Inserted : Hashgraph → Result (Unit {0}) × Hashgraph → Type 0
  Inserted h (ok _, g) =
      ((x : String) × (g.undetermined_events ≡ h.undetermined_events ++ x ∷ []))
      × (g.pending_rounds ≡ h.pending_rounds)
      × (g.topological_index ≡ h.topological_index +ℤ pos 1)
      × (g.last_consensus_round ≡ h.last_consensus_round)
  Inserted h (_, g) = with_index h.topological_index (ledger g) ≡ ledger h

  indexed : Hashgraph → Hashgraph
  indexed g = record g { topological_index = g.topological_index +ℤ pos 1 }

  Outcome-Inserted :
      (h g : Hashgraph) (out : Result (Unit {0}) × Hashgraph)
      → ledger g ≡ ledger h
      → Outcome (ledger (indexed g)) out
      → Inserted h out
  unfolding indexed
  Outcome-Inserted h g (ok _, k) e ((x, events), rounds, index, last) = (
    (x, events ∙ ap (λ (l : Ledger). l.undetermined_events ++ x ∷ []) e),
    rounds ∙ ap (λ (l : Ledger). l.pending_rounds) e,
    index ∙ ap (λ (l : Ledger). l.topological_index +ℤ pos 1) e,
    last ∙ ap (λ (l : Ledger). l.last_consensus_round) e,
  )
  Outcome-Inserted h g (err x, k) e out =
      ap (with_index h.topological_index) out ∙ ap (with_index h.topological_index) e
  Outcome-Inserted h g (panic, k) e out =
      ap (with_index h.topological_index) out ∙ ap (with_index h.topological_index) e

  after_check :
      (r : Result (Unit {0})) (n : ℕ) (event : Event) (wire_info : Bool) (g h : Hashgraph)
      → ledger g ≡ ledger h
      → Inserted h (continue r (λ _. take_topological_index event >>= place_event n wire_info) g)
  unfolding indexed
  after_check (ok _) n event wire_info g h e = Outcome-Inserted h g _ e (
      place_event-Outcome n wire_info (record event { topological_index = g.topological_index })
        (indexed g))
  after_check (err x) n event wire_info g h e = ap (with_index h.topological_index) e
  after_check panic n event wire_info g h e = ap (with_index h.topological_index) e

  -- On every path of an insertion: if it fails, the undetermined events, the pending rounds and
  -- signatures, the counters and the marks are as before, but for the topological index; if it
  -- returns, one event was added to the undetermined events, the topological index is one more, and
  -- the pending rounds and the last consensus round are as before.
  pub insert_event-Inserted :
      (n : ℕ) (event : Event) (wire_info : Bool) (h : Hashgraph)
      → Inserted h (insert_event n event wire_info h)
  unfolding insert_event
  insert_event-Inserted n event wire_info h =
      after_check (check_event event h).0 n event wire_info (check_event event h).1 h
        (ledger_stays (check_event event) (check_event-IsQuiet event) h)

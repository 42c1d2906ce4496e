-- ===== src/Hashgraph/Process/Pipeline.antt =====
-- The consensus methods one after another.
use babble.Base.{
  refl, ap, ℕ, ℤ, String, [], Option, none, some, not, ◌&&◌, Bool, true, false, Bool-cases, inl,
  inr, arith,
}
use babble.Common.Errors.{Result, ok, err, panic}
use babble.Common.Exec.{Exec, attempt, gets, modify}
use babble.Common.Exec.Steps.{Whatever, whatever, Steps, bind-Moves, pure-Steps, for_each-Steps}
use babble.Common.Platform.{Platform}
use babble.Hashgraph.Event.{Event, set_round, set_lamport_timestamp}
use babble.Hashgraph.Crypto.{Crypto}
use babble.Hashgraph.Block.{Block}
use babble.Hashgraph.RoundInfo.{RoundInfo, add_created_event}
use babble.Hashgraph.PendingRounds.{queued, ordered_pending_rounds}
use babble.Hashgraph.PendingRounds.Order.{IsOrdered}
use babble.Hashgraph.PendingRounds.Flags.{set_pending-IsOrdered, update-IsOrdered}
use babble.Hashgraph.InmemStore.{get_event, set_event, get_round, set_round_info}
use babble.Hashgraph.State.{Hashgraph, on_store}
use babble.Hashgraph.State.Owner.{Owner, on_hashgraph, owned, on_hashgraph-Steps}
use babble.Hashgraph.State.Quiet.{
  Ledger, IsQuiet, make-IsQuiet, read-IsQuiet, on_store-IsQuiet, attempt-IsQuiet, bind-IsQuiet,
}
use babble.Hashgraph.Rounds.{round, witness, lamport_timestamp}
use babble.Hashgraph.Rounds.Quiet.{round-IsQuiet, witness-IsQuiet, lamport_timestamp-IsQuiet}
use babble.Hashgraph.Insert.{write_event, insert_event}
use babble.Hashgraph.Insert.Refused.{Inserted, insert_event-Inserted}
use babble.Hashgraph.Reset.{round_or_new, info_or_new}
use babble.Hashgraph.Divide.{
  is_above_bound, queue_round, after_queued, assign_round, assign_timestamp, store_if, divide_event,
  divide_rounds,
}
use babble.Hashgraph.Voting.{decide_rounds, mark_decided, decide_fame}
use babble.Hashgraph.Voting.Quiet.{decide_rounds-IsQuiet}
use babble.Hashgraph.Received.{decide_events, leave_undetermined, decide_round_received}
use babble.Hashgraph.Received.Remaining.{decide_events-IsQuiet}
use babble.Hashgraph.Process.{insert_event_and_run_consensus}
use babble.Hashgraph.Anchor.Signed.{NotBelow}
use babble.Hashgraph.Process.Onward.{
  Onward, Onward-refl, onward, same-Onward, quiet-Onward, modify-Onward,
}
use babble.Hashgraph.Process.Order.{process_decided_rounds-Onward}

queue_round-Onward : (r : ℤ) (info : RoundInfo) (h : Hashgraph) → Onward h (queue_round r info h)
unfolding queue_round
queue_round-Onward r info h = elim (Bool-cases (queued h.pending_rounds r)) [
  | inl e ↦ rw e (Onward-refl h)
  | inr e ↦ elim (Bool-cases (not info.decided && is_above_bound h.round_lower_bound r)) [
    | inr f ↦ rw (e, f) (Onward-refl h)
    | inl f ↦
        rw (e, f)
          (record {
            up = (Onward-refl h).up;
            in_order = λ w.
                set_pending-IsOrdered h.pending_rounds (record { index = r; decided = false }) w e;
          })
  ]
]

round_or_new-IsQuiet : (r : ℤ) → IsQuiet (round_or_new r)
round_or_new-IsQuiet r =
    bind-IsQuiet (attempt (on_store (get_round r))) _
      (attempt-IsQuiet (on_store (get_round r)) (on_store-IsQuiet (get_round r)))
      info_or_new-IsQuiet
  where
    info_or_new-IsQuiet : (i : Result RoundInfo) → IsQuiet (info_or_new i)
    info_or_new-IsQuiet (ok info) = read-IsQuiet _
    info_or_new-IsQuiet (err e) = make-IsQuiet _ (λ h. ground arith)
    info_or_new-IsQuiet panic = read-IsQuiet _

module _ ⦃platform : Platform⦄ ⦃crypto : Crypto⦄ where
  assign_round-Onward :
      (o : Option ℤ) (n : ℕ) (x : String) (ev : Event)
      → Steps onward Whatever (assign_round o n x ev)
  assign_round-Onward (some r) n x ev =
      let same : Event × Bool = (ev, false) in pure-Steps onward Whatever same tt
  assign_round-Onward none n x ev =
      bind-Moves onward Whatever (round n x) _ (quiet-Onward (round n x) (round-IsQuiet n x)) (λ r.
        bind-Moves onward Whatever (modify (write_event x (set_round ev r))) _
          (quiet-Onward (modify (write_event x (set_round ev r))) (make-IsQuiet _ (λ h. refl)))
          (λ _.
            bind-Moves onward Whatever (round_or_new r) _
              (quiet-Onward (round_or_new r) (round_or_new-IsQuiet r))
              (λ info.
                bind-Moves onward Whatever (modify (queue_round r info)) _
                  (λ h. (queue_round-Onward r info h, tt)) (λ _. queued_after r info))))
    where
      queued_after : (r : ℤ) (info : RoundInfo) → Steps onward Whatever (after_queued n x ev r info)
      queued_after r info = quiet-Onward (after_queued n x ev r info) (
          bind-IsQuiet (witness n x) _ (witness-IsQuiet n x) (λ w.
            bind-IsQuiet (on_store (set_round_info r (add_created_event info x w))) _
              (on_store-IsQuiet (set_round_info r (add_created_event info x w)))
              (λ _. read-IsQuiet (λ _. ok (set_round ev r, true)))))

  assign_timestamp-IsQuiet :
      (o : Option ℤ) (n : ℕ) (x : String) (c : Event × Bool) → IsQuiet (assign_timestamp o n x c)
  assign_timestamp-IsQuiet (some t) n x c = read-IsQuiet _
  assign_timestamp-IsQuiet none n x c =
      bind-IsQuiet (lamport_timestamp n x) _ (lamport_timestamp-IsQuiet n x) (λ t.
        bind-IsQuiet (modify (write_event x (set_lamport_timestamp c.0 t))) _
          (make-IsQuiet _ (λ h. refl))
          (λ _. read-IsQuiet (λ _. ok (set_lamport_timestamp c.0 t, true))))

  store_if-IsQuiet : (c : Event × Bool) → IsQuiet (store_if c)
  store_if-IsQuiet (ev, false) = read-IsQuiet _
  store_if-IsQuiet (ev, true) =
      bind-IsQuiet (attempt (on_store (set_event ev))) _
        (attempt-IsQuiet (on_store (set_event ev)) (on_store-IsQuiet (set_event ev)))
        (λ r. read-IsQuiet _)

  divide_event-Onward : (n : ℕ) (x : String) → Steps onward Whatever (divide_event n x)
  unfolding divide_event
  divide_event-Onward n x =
      bind-Moves onward Whatever (on_store (get_event x)) _
        (quiet-Onward (on_store (get_event x)) (on_store-IsQuiet (get_event x)))
        (λ ev.
          bind-Moves onward Whatever (assign_round ev.round n x ev) _
            (assign_round-Onward ev.round n x ev)
            (λ c.
              bind-Moves onward Whatever (assign_timestamp ev.lamport_timestamp n x c) _
                (quiet-Onward (assign_timestamp ev.lamport_timestamp n x c)
                  (assign_timestamp-IsQuiet ev.lamport_timestamp n x c))
                (λ d. quiet-Onward (store_if d) (store_if-IsQuiet d))))

  divide_rounds-Onward : (n : ℕ) → Steps onward Whatever (divide_rounds n)
  unfolding divide_rounds
  divide_rounds-Onward n h =
      for_each-Steps onward h.undetermined_events (divide_event n) (divide_event-Onward n) h

  decide_fame-Onward : Steps onward Whatever decide_fame
  unfolding decide_fame
  decide_fame-Onward =
      bind-Moves onward Whatever (gets (λ (h : Hashgraph). ordered_pending_rounds h.pending_rounds))
        _ (λ h. (Onward-refl h, tt))
        (λ pending.
          bind-Moves onward Whatever (decide_rounds pending ([], []))
            (λ result. modify (mark_decided result.0))
            (quiet-Onward (decide_rounds pending ([], [])) (decide_rounds-IsQuiet pending ([], [])))
            (λ result. modify-Onward (mark_decided result.0) (λ h. record {
              up = (Onward-refl h).up;
              in_order = update-IsOrdered h.pending_rounds result.0;
            })))

  decide_round_received-Onward : (n : ℕ) → Steps onward Whatever (decide_round_received n)
  unfolding decide_round_received
  decide_round_received-Onward n =
      bind-Moves onward Whatever (gets (λ (h : Hashgraph). h.undetermined_events)) _
        (λ h. (Onward-refl h, tt))
        (λ events.
          bind-Moves onward Whatever (decide_events n events) _
            (quiet-Onward (decide_events n events) (decide_events-IsQuiet n events))
            (λ rest.
              modify-Onward (leave_undetermined rest)
                (λ h. same-Onward h (leave_undetermined rest h) refl refl)))

  insert_event-Onward :
      (n : ℕ) (event : Event) (wire_info : Bool)
      → Steps onward Whatever (insert_event n event wire_info)
  insert_event-Onward n event wire_info h = (
    by_path (insert_event n event wire_info h) (insert_event-Inserted n event wire_info h),
    whatever (insert_event n event wire_info h).0,
  )
    where
      by_path : (out : Result (Unit {0}) × Hashgraph) → Inserted h out → Onward h out.1
      by_path (ok _, g) (events, rounds, index, last) = same-Onward h g last rounds
      by_path (err e, g) same =
          same-Onward h g (ap (λ (l : Ledger). l.last_consensus_round) same)
            (ap (λ (l : Ledger). l.pending_rounds) same)
      by_path (panic, g) same =
          same-Onward h g (ap (λ (l : Ledger). l.last_consensus_round) same)
            (ap (λ (l : Ledger). l.pending_rounds) same)

  module _ {S : Type 0} ⦃owner : Owner S⦄ where
    pub insert_event_and_run_consensus-Steps :
        (commit : Block → Exec S (Unit {0})) (n : ℕ) (event : Event) (wire_info : Bool)
        → ((b : Block) → Steps (owned onward) Whatever (commit b))
        → Steps (owned onward) Whatever (insert_event_and_run_consensus commit n event wire_info)
    unfolding insert_event_and_run_consensus
    insert_event_and_run_consensus-Steps commit n event wire_info commits =
        bind-Moves (owned onward) Whatever (on_hashgraph (insert_event n event wire_info)) _
          (on_hashgraph-Steps onward Whatever (insert_event n event wire_info)
            (insert_event-Onward n event wire_info))
          (λ _.
            bind-Moves (owned onward) Whatever (on_hashgraph (divide_rounds n)) _
              (on_hashgraph-Steps onward Whatever (divide_rounds n) (divide_rounds-Onward n))
              (λ _.
                bind-Moves (owned onward) Whatever (on_hashgraph decide_fame) _
                  (on_hashgraph-Steps onward Whatever decide_fame decide_fame-Onward)
                  (λ _.
                    bind-Moves (owned onward) Whatever (on_hashgraph (decide_round_received n)) _
                      (on_hashgraph-Steps onward Whatever (decide_round_received n)
                        (decide_round_received-Onward n))
                      (λ _. process_decided_rounds-Onward commit commits n))))

    -- On every path of InsertEventAndRunConsensus, errors and panics included, the last consensus round
    -- is not lowered, and a queue of pending rounds that is in order, the slice being the sorted rounds
    -- of the map with each round once, stays so; as long as the commit callback, which may change the
    -- object around the hashgraph too, does the same.
    pub insert_event_and_run_consensus-Onward :
        (commit : Block → Exec S (Unit {0})) (n : ℕ) (event : Event) (wire_info : Bool) (s : S)
        → ((b : Block) → Steps (owned onward) Whatever (commit b))
        → IsOrdered (owner.hashgraph_of s).pending_rounds
        → NotBelow
            (owner.hashgraph_of s).last_consensus_round
            (owner.hashgraph_of
              (insert_event_and_run_consensus commit n event wire_info s).1).last_consensus_round
          × IsOrdered
              (owner.hashgraph_of
                (insert_event_and_run_consensus commit n event wire_info s).1).pending_rounds
    insert_event_and_run_consensus-Onward commit n event wire_info s commits w =
        let (steps, _) = insert_event_and_run_consensus-Steps commit n event wire_info commits s in
        (steps.up, steps.in_order w)

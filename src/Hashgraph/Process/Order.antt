-- ===== src/Hashgraph/Process/Order.antt =====
-- Rounds are processed in order, none is skipped, and those that are processed leave the queue.
use babble.Base.{
  ◌≡◌, refl, ℕ, ℤ, List, [], ◌∷◌, Bool, true, false, Bool-cases, inl, inr, subst, sym, lookup, none,
  if◌then◌else◌, int_key,
}
use babble.Common.Errors.{Result, ok, err, panic}
use babble.Common.Exec.{Exec, attempt, modify, continue, ◌>>◌}
use babble.Common.Exec.Steps.{
  Whatever, whatever, IfOk, Steps, pure-Steps, bind-Moves, bind-Steps, attempt-Steps,
}
use babble.Common.Platform.{Platform}
use babble.Hashgraph.Event.{FrameEvent}
use babble.Hashgraph.Frame.{Frame}
use babble.Hashgraph.Crypto.{Crypto}
use babble.Hashgraph.Block.{Block}
use babble.Hashgraph.PendingRounds.{PendingRound, clean, ordered_pending_rounds}
use babble.Hashgraph.InmemStore.{get_round, set_block}
use babble.Hashgraph.State.{Hashgraph, on_store}
use babble.Hashgraph.State.Owner.{Owner, on_hashgraph, owned, on_hashgraph-Steps}
use babble.Hashgraph.State.Quiet.{IsQuiet, on_store-IsQuiet, attempt-IsQuiet}
use babble.Hashgraph.PendingRounds.Order.{IsOrdered, clean-IsOrdered}
use babble.Hashgraph.Process.Onward.{
  Onward, Onward-trans, onward, same-Onward, quiet-Onward, raised_above, note_processed_lem,
  note_processed_rounds,
}
use babble.Hashgraph.PendingRounds.Replay.{contains, lookup-delete_all}
use babble.Hashgraph.Process.Turns.{
  decided_prefix, Processed, Reached, Turns, go_on-Turns, none_processed, Ran, ended, go_on-Ran,
}
use babble.Hashgraph.Insert.{renamed}
use babble.Hashgraph.Frames.{get_frame}
use babble.Hashgraph.Frames.Quiet.{get_frame-IsQuiet, renamed-IsQuiet}
use babble.Hashgraph.Process.{
  note_processed, count_consensus_event, count_consensus_events, has_payload, commit_if, block_of,
  note_commited, commit_frame, process_frame, process_unless_empty, process_frame_of, process_round,
  process_rounds, process_decided_rounds, without_rounds,
}

module _ ⦃platform : Platform⦄ ⦃crypto : Crypto⦄ where
  count_consensus_events_last :
      (es : List FrameEvent) (h : Hashgraph)
      → ((count_consensus_events es h).last_consensus_round ≡ h.last_consensus_round)
        × ((count_consensus_events es h).pending_rounds ≡ h.pending_rounds)
  unfolding count_consensus_event
  count_consensus_events_last [] h = (refl, refl)
  count_consensus_events_last (e ∷ es) h =
      count_consensus_events_last es (count_consensus_event e h)

  module _ {S : Type 0} ⦃owner : Owner S⦄ where
    -- what a method of the hashgraph does, seen from its owner
    pub calm-Onward :
        {A : Type 0} (m : Exec Hashgraph A)
        → IsQuiet m
        → Steps {S = S} (owned onward) Whatever (on_hashgraph m)
    calm-Onward m q = on_hashgraph-Steps onward Whatever m (quiet-Onward m q)

    same_modify-Onward :
        (f : Hashgraph → Hashgraph)
        → ((h : Hashgraph)
            → ((f h).last_consensus_round ≡ h.last_consensus_round)
              × ((f h).pending_rounds ≡ h.pending_rounds))
        → Steps {S = S} (owned onward) Whatever (on_hashgraph (modify f))
    same_modify-Onward f same =
        on_hashgraph-Steps onward Whatever (modify f)
          (λ h. (same-Onward h (f h) (same h).0 (same h).1, tt))

    module _ (commit : Block → Exec S (Unit {0}))
        (commit-Onward : (b : Block) → Steps (owned onward) Whatever (commit b)) where
      commit_if-Onward :
          (b : Bool) (block : Block) → Steps (owned onward) Whatever (commit_if commit b block)
      commit_if-Onward false block = pure-Steps (owned onward) Whatever tt tt
      commit_if-Onward true block =
          bind-Moves (owned onward) Whatever (on_hashgraph (on_store (set_block block))) _
            (calm-Onward (on_store (set_block block)) (on_store-IsQuiet (set_block block)))
            (λ _.
              bind-Steps (owned onward) (IfOk Whatever) Whatever (attempt (commit block)) _
                (attempt-Steps (owned onward) Whatever (commit block) (commit-Onward block))
                (λ _ _ s. ((owned onward).none_at_all s, tt)))

      process_frame-Onward :
          (frame : Frame) → Steps (owned onward) Whatever (process_frame commit frame)
      unfolding process_frame
      process_frame-Onward frame =
          bind-Moves (owned onward) Whatever
            (on_hashgraph (modify (count_consensus_events frame.events)))
            (λ _. commit_frame commit frame >> on_hashgraph (modify (note_commited frame)))
            (same_modify-Onward (count_consensus_events frame.events)
              (count_consensus_events_last frame.events))
            (λ _.
              bind-Moves (owned onward) Whatever (commit_frame commit frame)
                (λ _. on_hashgraph (modify (note_commited frame)))
                (λ s.
                  let block = block_of frame (owner.hashgraph_of s) in
                  commit_if-Onward (has_payload block) block s)
                (λ _. same_modify-Onward (note_commited frame) (λ h. (refl, refl))))

      process_unless_empty-Onward :
          (es : List FrameEvent) (frame : Frame)
          → Steps (owned onward) Whatever (process_unless_empty commit es frame)
      process_unless_empty-Onward [] frame = pure-Steps (owned onward) Whatever tt tt
      process_unless_empty-Onward (e ∷ es) frame = process_frame-Onward frame

      process_frame_of-Onward :
          (n : ℕ) (i : ℤ) → Steps (owned onward) Whatever (process_frame_of commit n i)
      process_frame_of-Onward n i =
          bind-Moves (owned onward) Whatever (on_hashgraph (on_store (get_round i))) _
            (calm-Onward (on_store (get_round i)) (on_store-IsQuiet (get_round i)))
            (λ info.
              bind-Moves (owned onward) Whatever (on_hashgraph (attempt (get_frame n i))) _
                (calm-Onward (attempt (get_frame n i))
                  (attempt-IsQuiet (get_frame n i) (get_frame-IsQuiet n i)))
                (λ r.
                  bind-Moves (owned onward) Whatever (on_hashgraph (renamed "Getting Frame" r)) _
                    (calm-Onward (renamed "Getting Frame" r) (renamed-IsQuiet "Getting Frame" r))
                    (λ frame. process_unless_empty-Onward frame.events frame)))

      -- a turn that returns leaves the last consensus round at its round or above
      process_round-Reached :
          (n : ℕ) (i : ℤ) (s : S)
          → Onward (owner.hashgraph_of s) (owner.hashgraph_of (process_round commit n i s).1)
            × Reached i
                (owner.hashgraph_of (process_round commit n i s).1)
                (process_round commit n i s).0
      unfolding process_round
      process_round-Reached n i s =
          ending (process_frame_of commit n i s).0 (process_frame_of commit n i s).1
            (process_frame_of-Onward n i s).0
        where
          ending :
              (r : Result (Unit {0})) (t : S)
              → Onward (owner.hashgraph_of s) (owner.hashgraph_of t)
              → Onward (owner.hashgraph_of s) (
                  owner.hashgraph_of
                    (continue r (λ _. on_hashgraph (modify (note_processed i))) t).1)
                × Reached i
                    (owner.hashgraph_of
                      (continue r (λ _. on_hashgraph (modify (note_processed i))) t).1)
                    (continue r (λ _. on_hashgraph (modify (note_processed i))) t).0
          ending (err e) t up = (up, tt)
          ending panic t up = (up, tt)
          ending (ok _) t up =
              let h = owner.hashgraph_of s in
              let g = owner.hashgraph_of t in
              let (above, reached) = raised_above i g.last_consensus_round in
              subst (λ k. Onward h k × Reached i k (ok tt))
                (sym (owner.holds t (note_processed i g)))
                (
                  Onward-trans h g (note_processed i g) up (record {
                    up = rw (note_processed_lem i g) above;
                    in_order = λ w. rw (note_processed_rounds i g) w;
                  }),
                  rw (note_processed_lem i g) reached,
                )

      process_rounds-Turns :
          (n : ℕ) (ps : List PendingRound) (s : S)
          → Turns (decided_prefix ps) s (process_rounds commit n ps s)
      unfolding process_rounds
      process_rounds-Turns n [] s = none_processed s
      process_rounds-Turns n (p ∷ ps) s = elim (Bool-cases p.decided) [
        | inr e ↦ rw e (none_processed s)
        | inl e ↦
            let (up, reached) = process_round-Reached n p.index s in
            rw e (
              go_on-Turns (decided_prefix ps) p.index s (process_round commit n p.index s).1
                (process_round commit n p.index s).0 (process_rounds commit n ps) up reached
                (process_rounds-Turns n ps))
      ]

      pub process_decided_rounds-Onward :
          (n : ℕ) → Steps (owned onward) Whatever (process_decided_rounds commit n)
      unfolding process_decided_rounds
      process_decided_rounds-Onward n s =
          let h = owner.hashgraph_of s in
          let out = process_rounds commit n (ordered_pending_rounds h.pending_rounds) s in
          let (steps, all) = process_rounds-Turns n (ordered_pending_rounds h.pending_rounds) s in
          let g = owner.hashgraph_of out.1 in
          (
            subst (λ k. Onward h k) (sym (owner.holds out.1 (without_rounds out.2 g)))
                (record {
                  up = steps.up;
                  in_order = λ w. clean-IsOrdered g.pending_rounds out.2 (steps.in_order w);
                }),
            whatever out.0,
          )

      process_rounds-Ran :
          (n : ℕ) (ps : List PendingRound) (s : S)
          → Ran
              (process_round commit n)
              (decided_prefix ps)
              s
              (process_rounds commit n ps s).2
              (process_rounds commit n ps s).0
              (process_rounds commit n ps s).1
      unfolding process_rounds
      process_rounds-Ran n [] s = ended s
      process_rounds-Ran n (p ∷ ps) s = elim (Bool-cases p.decided) [
        | inr e ↦ rw e (ended s)
        | inl e ↦ rw e (
            go_on-Ran (process_round commit n) p.index (decided_prefix ps) s
              (process_round commit n p.index s) (process_rounds commit n ps) refl
              (process_rounds-Ran n ps))
      ]

      -- From a queue of pending rounds that is in order, the rounds before the first that is not decided
      -- are processed one after another in that order, each from the state that the one before left: all
      -- of them, or up to one that ends with an error or a panic. On every path, the rounds whose turn
      -- returned leave the queue and no others do, the queue stays in order, the last consensus round is
      -- not lowered, and it is not below any of those rounds. The commit callback may do anything to the
      -- hashgraph and the object around it that does not lower that round and keeps the queue in order.
      pub process_decided_rounds-Processed :
          (n : ℕ) (s : S)
          → IsOrdered (owner.hashgraph_of s).pending_rounds
          → (done : List ℤ) × (t : S) × Ran
              (process_round commit n)
              (decided_prefix (ordered_pending_rounds (owner.hashgraph_of s).pending_rounds))
              s
              done
              (process_decided_rounds commit n s).0
              t
            × Processed
                (decided_prefix (ordered_pending_rounds (owner.hashgraph_of s).pending_rounds))
                (owner.hashgraph_of s)
                (process_decided_rounds commit n s).0
                (owner.hashgraph_of (process_decided_rounds commit n s).1)
                done
            × IsOrdered (owner.hashgraph_of (process_decided_rounds commit n s).1).pending_rounds
            × ((j : ℤ)
                → lookup
                    (owner.hashgraph_of (process_decided_rounds commit n s).1).pending_rounds.items
                    j
                  ≡ (if contains done j
                      then none
                      else lookup (owner.hashgraph_of t).pending_rounds.items j))
      unfolding process_decided_rounds clean
      process_decided_rounds-Processed n s w =
          let h = owner.hashgraph_of s in
          let ps = ordered_pending_rounds h.pending_rounds in
          let out = process_rounds commit n ps s in
          let (steps, all) = process_rounds-Turns n ps s in
          let g = owner.hashgraph_of out.1 in
          let (all, in_order, left) =
            subst
              (λ k.
                Processed (decided_prefix ps) h out.0 k out.2
                × IsOrdered k.pending_rounds
                × ((j : ℤ)
                    → lookup k.pending_rounds.items j
                      ≡ (if contains out.2 j then none else lookup g.pending_rounds.items j)))
              (sym (owner.holds out.1 (without_rounds out.2 g)))
              (
                record {
                  prefix = all.prefix;
                  complete = all.complete;
                  up = all.up;
                  reached = all.reached;
                },
                clean-IsOrdered g.pending_rounds out.2 (steps.in_order w),
                lookup-delete_all g.pending_rounds.items out.2,
              ) in
          (out.2, out.1, process_rounds-Ran n ps s, all, in_order, left)

-- ===== src/Node/Core/SelfEvents/Onward.antt =====
-- What a synchronisation does to the rounds of the hashgraph, with the commit callback of the core.
use babble.Base.{
  refl, ℕ, String, List, [], ◌∷◌, Option, none, length, lookup, ltb_ℤ, ◌||◌, Bool, true, false,
  Bool-cases, inl, inr, pos, nat_key,
}
use babble.Common.Errors.{Result, ok, err, panic}
use babble.Common.Exec.{Exec, lift, gets, attempt, modify}
use babble.Common.Exec.Steps.{Whatever, whatever, IfOk, attempt-Steps, for_each-Steps}
use babble.Common.Platform.{Platform, Bytes}
use babble.Hashgraph.Event.{Event, WireEvent, BlockSignature, InternalTransaction, creator}
use babble.Hashgraph.Crypto.{Crypto, event_hash}
use babble.Hashgraph.SigPool.{slice}
use babble.Hashgraph.PendingRounds.Order.{IsOrdered}
use babble.Hashgraph.State.{on_store}
use babble.Hashgraph.State.Owner.{owned, on_hashgraph}
use babble.Hashgraph.State.Quiet.{on_store-IsQuiet}
use babble.Hashgraph.Ancestry.{same_text}
use babble.Hashgraph.Wire.{read_wire_info}
use babble.Hashgraph.Anchor.Signed.{NotBelow}
use babble.Hashgraph.Process.{insert_event_and_run_consensus}
use babble.Hashgraph.Process.Onward.{Onward, Onward-refl, onward}
use babble.Node.PeerSelector.{public_key_hex}
use babble.Node.Core.{Host, Core, core_owner, busy}
use babble.Node.Core.Commit.{commit}
use babble.Node.Core.Commit.Onward.{
  IsOnward, bind-IsOnward, pure-IsOnward, calm-IsOnward, beside-Onward, gets-Onward, lift-Onward,
  insert_event_and_run_consensus-IsOnward,
}
use babble.Node.Core.SelfEvents.{
  rest_from, is_normal_self_parent_error, with_pools, drop_pools, is_passed, drop_passed, replaces,
  keep_head, without_head, sent_by, note_self_event, insert_event, sign_and_insert_self_event,
  next_self_event, add_self_event, hex_of, record_head, record_heads, after_insertion, sync_event,
  sync_events, record_if, sync,
}

attempt-IsOnward : {A : Type 0} (m : Exec Core A) → IsOnward m → IsOnward (attempt m)
unfolding IsOnward
attempt-IsOnward m t c =
    let (moved, _) = attempt-Steps (owned onward) Whatever m t c in
    (moved, whatever (attempt m c).0)

drop_passed-IsOnward : (w : WireEvent) → IsOnward (modify (drop_passed w))
drop_passed-IsOnward w = beside-Onward (drop_passed w) (λ c.
    elim (Bool-cases (is_passed (lookup c.heads w.body.creator_id) w)) [
      | inl e ↦ rw e (refl, refl)
      | inr e ↦ rw e (refl, refl)
    ])

keep_head-IsOnward :
    (from_id : ℕ) (other : Option Event) → IsOnward (modify (keep_head from_id other))
keep_head-IsOnward from_id other = beside-Onward (keep_head from_id other) (λ c.
    elim (Bool-cases (replaces other (lookup c.heads from_id))) [
      | inl e ↦ rw e (refl, refl)
      | inr e ↦ rw e (refl, refl)
    ])

module _ ⦃platform : Platform⦄ where
  drop_pools-IsOnward :
      (txs itxs : ℕ) (sigs : List BlockSignature) → IsOnward (drop_pools txs itxs sigs)
  unfolding IsOnward drop_pools
  drop_pools-IsOnward txs itxs sigs c =
      by_rest (rest_from txs c.transaction_pool) (rest_from itxs c.internal_transaction_pool)
    where
      by_rest :
          (t : Result (List Bytes)) (i : Result (List InternalTransaction))
          → Onward c.hashgraph (with_pools t i sigs c).1.hashgraph
            × IfOk Whatever (with_pools t i sigs c).0
      by_rest (ok t) (ok i) = (Onward-refl c.hashgraph, tt)
      by_rest (ok t) (err e) = (Onward-refl c.hashgraph, tt)
      by_rest (ok t) panic = (Onward-refl c.hashgraph, tt)
      by_rest (err e) i = (Onward-refl c.hashgraph, tt)
      by_rest panic i = (Onward-refl c.hashgraph, tt)

module _ ⦃platform : Platform⦄ ⦃crypto : Crypto⦄ (host : Host) where
  note_self_event-IsOnward : (event : Event) → IsOnward (modify (note_self_event host event))
  note_self_event-IsOnward event = beside-Onward (note_self_event host event) (λ c.
      elim (Bool-cases (same_text (creator event) (public_key_hex c.validator))) [
        | inl e ↦ rw e (refl, refl)
        | inr e ↦ rw e (refl, refl)
      ])

  insert_event-IsOnward :
      (n : ℕ) (event : Event) (wire_info : Bool) → IsOnward (insert_event host n event wire_info)
  unfolding insert_event
  insert_event-IsOnward n event wire_info =
      bind-IsOnward (insert_event_and_run_consensus (commit host) n event wire_info)
        (λ _. modify (note_self_event host event))
        (insert_event_and_run_consensus-IsOnward host n event wire_info)
        (λ _. note_self_event-IsOnward event)

  sign_and_insert_self_event-IsOnward :
      (n : ℕ) (event : Event) → IsOnward (sign_and_insert_self_event host n event)
  unfolding sign_and_insert_self_event
  sign_and_insert_self_event-IsOnward n event =
      bind-IsOnward (lift (host.sign (event_hash event.body))) _
        (lift-Onward (host.sign (event_hash event.body)))
        (λ signature. insert_event-IsOnward n (record event { signature = signature }) true)

  add_self_event-IsOnward :
      (n : ℕ) (other_head : String) → IsOnward (add_self_event host n other_head)
  unfolding IsOnward add_self_event
  add_self_event-IsOnward n other_head c =
      elim (Bool-cases (ltb_ℤ c.hashgraph.store.last_round c.accepted_round)) [
        | inl e ↦ rw e (Onward-refl c.hashgraph, tt)
        | inr e ↦ rw e (
            bind-IsOnward (sign_and_insert_self_event host n (next_self_event host other_head c))
              (λ _.
                drop_pools (length c.transaction_pool) (length c.internal_transaction_pool)
                  (slice c.self_block_signatures))
              (sign_and_insert_self_event-IsOnward n (next_self_event host other_head c))
              (λ _.
                drop_pools-IsOnward (length c.transaction_pool) (length c.internal_transaction_pool)
                  (slice c.self_block_signatures))
              c)
      ]

  record_heads-IsOnward : (n : ℕ) → IsOnward (record_heads host n)
  unfolding IsOnward record_heads
  record_heads-IsOnward n c =
      for_each-Steps (owned onward) c.heads (record_head host n) record_head-IsOnward c
    where
      record_head-IsOnward : (e : ℕ × Option Event) → IsOnward (record_head host n e)
      record_head-IsOnward (id, head) =
          bind-IsOnward (add_self_event host n (hex_of host head)) (λ _. modify (without_head id))
            (add_self_event-IsOnward n (hex_of host head))
            (λ _. beside-Onward (without_head id) (λ c. (refl, refl)))

  after_insertion-IsOnward :
      (r : Result (Unit {0})) (from_id : ℕ) (w : WireEvent) (ev : Event) (other : Option Event)
      → IsOnward (after_insertion host r from_id w ev other)
  after_insertion-IsOnward (ok _) from_id w ev other =
      bind-IsOnward (modify (drop_passed w)) _ (drop_passed-IsOnward w)
        (λ _. pure-IsOnward (sent_by from_id w ev other))
  after_insertion-IsOnward panic from_id w ev other = lift-Onward panic
  after_insertion-IsOnward (err e) from_id w ev other =
      elim (Bool-cases (is_normal_self_parent_error e)) [
        | inl normal ↦ rw normal (pure-IsOnward other)
        | inr not_normal ↦ rw not_normal (lift-Onward (err e))
      ]

  sync_event-IsOnward :
      (n from_id : ℕ) (w : WireEvent) (other : Option Event)
      → IsOnward (sync_event host n from_id w other)
  unfolding sync_event
  sync_event-IsOnward n from_id w other =
      bind-IsOnward (on_hashgraph (on_store (λ s. (read_wire_info s w, s)))) _
        (calm-IsOnward (on_store (λ s. (read_wire_info s w, s)))
          (on_store-IsQuiet (λ s. (read_wire_info s w, s))))
        (λ ev.
          bind-IsOnward (attempt (insert_event host n ev false)) _
            (attempt-IsOnward (insert_event host n ev false) (insert_event-IsOnward n ev false))
            (λ r. after_insertion-IsOnward r from_id w ev other))

  sync_events-IsOnward :
      (n from_id : ℕ) (ws : List WireEvent) (other : Option Event)
      → IsOnward (sync_events host n from_id ws other)
  sync_events-IsOnward n from_id [] other = pure-IsOnward other
  sync_events-IsOnward n from_id (w ∷ ws) other =
      bind-IsOnward (sync_event host n from_id w other) (sync_events host n from_id ws)
        (sync_event-IsOnward n from_id w other) (sync_events-IsOnward n from_id ws)

  record_if-IsOnward : (worth : Bool) (n : ℕ) → IsOnward (record_if host worth n)
  record_if-IsOnward true n = record_heads-IsOnward n
  record_if-IsOnward false n = pure-IsOnward tt

  sync-IsOnward : (n from_id : ℕ) (ws : List WireEvent) → IsOnward (sync host n from_id ws)
  unfolding sync
  sync-IsOnward n from_id ws =
      bind-IsOnward (sync_events host n from_id ws none) _ (sync_events-IsOnward n from_id ws none)
        (λ other.
          bind-IsOnward (modify (keep_head from_id other)) _ (keep_head-IsOnward from_id other)
            (λ _.
              bind-IsOnward (gets (λ (c : Core). busy c || ltb_ℤ c.seq (pos 0))) _
                (gets-Onward (λ c. busy c || ltb_ℤ c.seq (pos 0)))
                (λ worth. record_if-IsOnward worth n)))

  -- Whatever another node sends, whatever the application answers to the blocks that are committed on
  -- the way and whatever the signatures are: on every path of a synchronisation, errors and panics
  -- included, the last consensus round is not lowered, and a queue of pending rounds that is in order
  -- stays so.
  pub sync-Onward :
      (n from_id : ℕ) (ws : List WireEvent) (c : Core)
      → IsOrdered c.hashgraph.pending_rounds
      → NotBelow c.hashgraph.last_consensus_round
          (sync host n from_id ws c).1.hashgraph.last_consensus_round
        × IsOrdered (sync host n from_id ws c).1.hashgraph.pending_rounds
  unfolding IsOnward
  sync-Onward n from_id ws c w =
      let (steps, _) = sync-IsOnward n from_id ws c in (steps.up, steps.in_order w)

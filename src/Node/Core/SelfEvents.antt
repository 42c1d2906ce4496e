-- ===== src/Node/Core/SelfEvents.antt =====
-- src/node/core.go, sync, recordHeads, addSelfEvent and the insertion of events. A range over the heads
-- visits those that are there at its start: nothing that is called adds one.
pub mod Onward
use babble.Base.{
  ℕ, suc, ℤ, pos, ◌+ℤ◌, String, List, [], ◌∷◌, GoMap, insert, lookup, delete, length, drop, Option,
  none, some, leb, ltb_ℤ, if◌then◌else◌, ◌||◌, ◌==◌, Bool, true, false, nat_key,
}
use babble.Common.Errors.{Error, store, self_parent, message, Result, ok, err, panic}
use babble.Common.Exec.{Exec, pure, fail, lift, gets, attempt, modify, for_each, ◌>>=◌, ◌>>◌}
use babble.Common.Platform.{Platform, Bytes}
use babble.Hashgraph.Event.{
  Event, WireEvent, BlockSignature, InternalTransaction, new_event, creator,
}
use babble.Hashgraph.Crypto.{Crypto, event_hash, hex}
use babble.Hashgraph.SigPool.{slice, remove_slice}
use babble.Hashgraph.State.{on_store}
use babble.Hashgraph.State.Owner.{on_hashgraph}
use babble.Hashgraph.Ancestry.{same_text}
use babble.Hashgraph.Wire.{read_wire_info}
use babble.Hashgraph.Process.{insert_event_and_run_consensus}
use babble.Node.PeerSelector.{public_key_hex}
use babble.Node.Core.{Host, Core, core_owner, busy}
use babble.Node.Core.Commit.{commit}

-- `pool[n:]`
abbrev pub rest_from : {A : Type 0} → ℕ → List A → Result (List A)
rest_from n xs = if leb n (length xs) then ok (drop n xs) else panic

-- IsNormalSelfParentError
abbrev pub is_normal_self_parent_error : Error → Bool
is_normal_self_parent_error (self_parent what normal) = normal
is_normal_self_parent_error (store e) = false
is_normal_self_parent_error (message what) = false

-- what an event has put in it is no longer in the pools
abbrev pub with_pools :
    ⦃platform : Platform⦄
    → Result (List Bytes)
    → Result (List InternalTransaction)
    → List BlockSignature
    → Exec Core (Unit {0})
with_pools (ok txs) (ok itxs) sigs c = (
  ok tt,
  record c {
    transaction_pool = txs;
    internal_transaction_pool = itxs;
    self_block_signatures = remove_slice c.self_block_signatures sigs;
  },
)
with_pools _ _ sigs c = (panic, c)

unfoldable pub drop_pools :
    ⦃platform : Platform⦄ → ℕ → ℕ → List BlockSignature → Exec Core (Unit {0})
drop_pools txs itxs sigs c =
    with_pools (rest_from txs c.transaction_pool) (rest_from itxs c.internal_transaction_pool) sigs
      c

-- a head that an event of its creator has passed
abbrev pub is_passed : Option (Option Event) → WireEvent → Bool
is_passed (some (some h)) w = ltb_ℤ h.body.index w.body.index
is_passed _ w = false

abbrev pub drop_passed : WireEvent → Core → Core
drop_passed w c =
    if is_passed (lookup c.heads w.body.creator_id) w
    then record c { heads = delete c.heads w.body.creator_id }
    else c

-- `!ok || h == nil || (otherHead != nil && otherHead.Index() > h.Index())`
abbrev pub replaces : Option Event → Option (Option Event) → Bool
replaces other none = true
replaces other (some none) = true
replaces none (some (some h)) = false
replaces (some o) (some (some h)) = ltb_ℤ h.body.index o.body.index

-- a head that is not empty is not overwritten with an empty one
abbrev pub keep_head : ℕ → Option Event → Core → Core
keep_head from_id other c =
    if replaces other (lookup c.heads from_id)
    then record c { heads = insert c.heads from_id other }
    else c

abbrev pub without_head : ℕ → Core → Core
without_head id c = record c { heads = delete c.heads id }

abbrev pub sent_by : ℕ → WireEvent → Event → Option Event → Option Event
sent_by from_id w ev other = if w.body.creator_id == from_id then some ev else other

module _ ⦃platform : Platform⦄ ⦃crypto : Crypto⦄ (host : Host) where
  abbrev pub note_self_event : Event → Core → Core
  note_self_event event c =
      if same_text (creator event) (public_key_hex c.validator)
      then record c { head = hex event; seq = event.body.index }
      else c

  -- insertEventAndRunConsensus
  unfoldable pub insert_event : ℕ → Event → Bool → Exec Core (Unit {0})
  insert_event n event wire_info = do
    insert_event_and_run_consensus (commit host) n event wire_info
    modify (note_self_event event)

  unfoldable pub sign_and_insert_self_event : ℕ → Event → Exec Core (Unit {0})
  sign_and_insert_self_event n event = do
    signature ← lift (host.sign (event_hash event.body))
    insert_event n (record event { signature = signature }) true

  -- the event that has the pools in it
  abbrev pub next_self_event : String → Core → Event
  next_self_event other_head c =
      new_event c.transaction_pool c.internal_transaction_pool (slice c.self_block_signatures)
        c.head other_head c.validator.public_key (c.seq +ℤ pos 1) (host.now (c.seq +ℤ pos 1))

  abbrev pub create_self_event : ℕ → String → Exec Core (Unit {0})
  create_self_event n other_head c =
      (do
        sign_and_insert_self_event n (next_self_event other_head c)
        drop_pools (length c.transaction_pool) (length c.internal_transaction_pool)
            (slice c.self_block_signatures))
        c

  unfoldable pub add_self_event : ℕ → String → Exec Core (Unit {0})
  add_self_event n other_head c =
      if ltb_ℤ c.hashgraph.store.last_round c.accepted_round
      then (ok tt, c)
      else create_self_event n other_head c

  abbrev pub hex_of : Option Event → String
  hex_of none = ""
  hex_of (some e) = hex e

  abbrev pub record_head : ℕ → ℕ × Option Event → Exec Core (Unit {0})
  record_head n (id, head) = do add_self_event n (hex_of head); modify (without_head id)

  unfoldable pub record_heads : ℕ → Exec Core (Unit {0})
  record_heads n c = for_each c.heads (record_head n) c

  -- the end of a turn of the loop of sync
  abbrev pub after_insertion :
      Result (Unit {0}) → ℕ → WireEvent → Event → Option Event → Exec Core (Option Event)
  after_insertion (err e) from_id w ev other =
      if is_normal_self_parent_error e then pure other else fail e
  after_insertion panic from_id w ev other = lift panic
  after_insertion (ok _) from_id w ev other = do
    modify (drop_passed w)
    pure (sent_by from_id w ev other)

  unfoldable pub sync_event : ℕ → ℕ → WireEvent → Option Event → Exec Core (Option Event)
  sync_event n from_id w other = do
    ev ← on_hashgraph (on_store (λ s. (read_wire_info s w, s)))
    r ← attempt (insert_event n ev false)
    after_insertion r from_id w ev other

  -- the loop of sync: the last event that the sender made
  abbrev pub sync_events : ℕ → ℕ → List WireEvent → Option Event → Exec Core (Option Event)
  sync_events n from_id [] other = pure other
  sync_events n from_id (w ∷ ws) other = do
    next ← sync_event n from_id w other
    sync_events n from_id ws next

  abbrev pub record_if : Bool → ℕ → Exec Core (Unit {0})
  record_if true n = record_heads n
  record_if false n = pure tt

  unfoldable pub sync : ℕ → ℕ → List WireEvent → Exec Core (Unit {0})
  sync n from_id unknown_events = do
    other_head ← sync_events n from_id unknown_events none
    modify (keep_head from_id other_head)
    worth ← gets (λ (c : Core). busy c || ltb_ℤ c.seq (pos 0))
    record_if worth n

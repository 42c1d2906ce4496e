-- ===== src/Hashgraph/Insert.antt =====
-- src/hashgraph/hashgraph.go, InsertEvent, with Verify of event.go and internal_transaction.go. What
-- is logged is left out, and so are the texts that an error's message repeats.
pub mod Refused
pub mod Tests
use babble.Base.{
  ℕ, zero, suc, pos, ◌+ℤ◌, String, List, [], ◌∷◌, ◌++◌, insert, lookup, is_some, if◌then◌else◌,
  Bool, true, false, string_key,
}
use babble.Common.Errors.{Result, ok, err, panic, message}
use babble.Common.Exec.{Exec, pure, fail, lift, gets, attempt, modify, for_each, ◌>>=◌, ◌>>◌}
use babble.Common.Platform.{Platform}
use babble.Common.Lru
use babble.Common.Lru.{Lru}
use babble.Peers.Peer.{pub_key_bytes}
use babble.Hashgraph.Event.{Event, InternalTransaction, BlockSignature, creator, is_loaded}
use babble.Hashgraph.SigPool.{add_sig}
use babble.Hashgraph.Crypto.{Crypto, event_hash, hex}
use babble.Hashgraph.InmemStore.{get_event, set_event}
use babble.Hashgraph.State.{Hashgraph, on_store}
use babble.Hashgraph.Coordinates.{
  check_self_parent, check_other_parent, init_event_coordinates, own_coordinates,
}
use babble.Hashgraph.Wire.{set_wire_info}
use babble.Hashgraph.Rounds.{witness}

-- a write to a cached event through its pointer
abbrev pub write_event : String → Event → Hashgraph → Hashgraph
write_event x e h = record h {
  store = record (h.store) { event_cache = Lru.overwrite h.store.event_cache x e };
}

-- an error of the method that is called, under a message of its own
abbrev pub renamed : {A : Type 0} → String → Result A → Exec Hashgraph A
renamed what (ok a) = pure a
renamed what (err e) = fail (message what)
renamed what panic = lift panic

module _ ⦃platform : Platform⦄ ⦃crypto : Crypto⦄ where
  -- InternalTransaction.Verify
  unfoldable pub verify_itx : InternalTransaction → Result Bool
  verify_itx t =
      crypto.check_signature (pub_key_bytes t.body.peer) (crypto.sha256 (crypto.itx_json t.body))
        t.signature

  abbrev pub all_valid : Result Bool → Result Bool → Result Bool
  all_valid (ok true) rest = rest
  all_valid (ok false) rest = err (message "invalid signature on internal transaction")
  all_valid r rest = r

  -- the loop of Event.Verify over the internal transactions, and what comes after it
  abbrev pub verify_itxs : List InternalTransaction → Result Bool → Result Bool
  verify_itxs [] rest = rest
  verify_itxs (t ∷ ts) rest = let more = verify_itxs ts rest in all_valid (verify_itx t) more

  -- Event.Verify
  unfoldable pub verify_event : Event → Result Bool
  verify_event e =
      verify_itxs e.body.internal_transactions
        (crypto.check_signature e.body.creator (event_hash e.body) e.signature)

  abbrev pub signature_check : Result Bool → Result (Unit {0})
  signature_check (ok true) = ok tt
  signature_check (ok false) = err (message "Invalid Event signature")
  signature_check (err e) = err e
  signature_check panic = panic

  -- `err == nil && w`
  abbrev pub and_no_error : Result Bool → Exec Hashgraph Bool
  and_no_error (ok w) = pure w
  and_no_error (err e) = pure false
  and_no_error panic = lift panic

  -- `go` walks on from the self-parent
  abbrev pub unless_witness :
      Bool → (String → Exec Hashgraph (Unit {0})) → String → Exec Hashgraph (Unit {0})
  unless_witness true go x = pure tt
  unless_witness false go x = go x

  -- the ancestor with the event as its first descendant by the event's creator
  abbrev pub with_descendant : Event → Event → Event
  with_descendant event a = record a {
    first_descendants = insert a.first_descendants (creator event) (own_coordinates event);
  }

  abbrev pub note_descendant :
      Bool
      → ℕ
      → (String → Exec Hashgraph (Unit {0}))
      → Event
      → String
      → Event
      → Exec Hashgraph (Unit {0})
  note_descendant true n go event ah a = pure tt
  note_descendant false n go event ah a = do
    modify (write_event ah (with_descendant event a))
    on_store (set_event (with_descendant event a))
    r ← attempt (witness n ah)
    w ← and_no_error r
    unless_witness w go a.body.self_parent

  abbrev pub at_ancestor :
      Result Event
      → ℕ
      → (String → Exec Hashgraph (Unit {0}))
      → Event
      → String
      → Exec Hashgraph (Unit {0})
  at_ancestor (ok a) n go event ah =
      note_descendant (is_some (lookup a.first_descendants (creator event))) n go event ah a
  at_ancestor (err e) n go event ah = pure tt
  at_ancestor panic n go event ah = lift panic

  -- the loop down the self-parents of an ancestor, for a number of steps
  unfoldable pub walk_down : ℕ → ℕ → Event → String → Exec Hashgraph (Unit {0})
  walk_down n zero event ah = lift panic
  walk_down n (suc steps) event ah = do
    a ← attempt (on_store (get_event ah))
    at_ancestor a n (walk_down n steps event) event ah

  unfoldable pub update_ancestor_first_descendant : ℕ → Event → Exec Hashgraph (Unit {0})
  update_ancestor_first_descendant n event =
      for_each event.last_ancestors (λ c. walk_down n n event c.1.hash)

  -- the event gets the next topological index
  abbrev pub take_topological_index : Event → Exec Hashgraph Event
  take_topological_index event h = (
    ok (record event { topological_index = h.topological_index }),
    record h { topological_index = h.topological_index +ℤ pos 1 },
  )

  abbrev pub wire_info_if : Bool → Event → Exec Hashgraph Event
  wire_info_if true event = do r ← attempt (on_store (set_wire_info event)); renamed "SetWireInfo" r
  wire_info_if false event = pure event

  -- SetEvent and the first descendants, for an event with its coordinates
  abbrev pub store_event : ℕ → Event → Exec Hashgraph (Unit {0})
  store_event n event = do
    stored ← attempt (on_store (set_event event))
    renamed "SetEvent" stored
    updated ← attempt (update_ancestor_first_descendant n event)
    renamed "UpdateAncestorFirstDescendant" updated

  abbrev pub add_pending_signatures : List BlockSignature → Hashgraph → Hashgraph
  add_pending_signatures [] h = h
  add_pending_signatures (bs ∷ sigs) h =
      add_pending_signatures sigs
        (record h { pending_signatures = add_sig h.pending_signatures bs })

  -- what the hashgraph keeps of an event that is inserted, but for its signatures of blocks
  abbrev pub noted : Event → Hashgraph → Hashgraph
  noted event h = record h {
    undetermined_events = h.undetermined_events ++ hex event ∷ [];
    pending_loaded_events =
        if is_loaded event then h.pending_loaded_events +ℤ pos 1 else h.pending_loaded_events;
  }

  abbrev pub note_inserted : Event → Hashgraph → Hashgraph
  note_inserted event h = add_pending_signatures event.body.block_signatures (noted event h)

  -- the checks that come before any change
  abbrev pub check_event : Event → Exec Hashgraph (Unit {0})
  check_event event = do
    lift (signature_check (verify_event event))
    s ← gets (λ (h : Hashgraph). h.store)
    lift (check_self_parent s event)
    on_store (check_other_parent event)

  -- what comes after the checks, for an event with its topological index
  abbrev pub place_event : ℕ → Bool → Event → Exec Hashgraph (Unit {0})
  place_event n wire_info event = do
    wired ← wire_info_if wire_info event
    placed ← on_store (init_event_coordinates wired)
    store_event n placed
    modify (note_inserted placed)

  unfoldable pub insert_event : ℕ → Event → Bool → Exec Hashgraph (Unit {0})
  insert_event n event wire_info = do
    check_event event
    indexed ← take_topological_index event
    place_event n wire_info indexed

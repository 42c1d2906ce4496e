-- ===== src/Hashgraph/Divide.antt =====
-- src/hashgraph/hashgraph.go, DivideRounds: the events that have no round yet get their round and
-- their timestamp, and rounds are queued for the votes. A cached event is written through its pointer
-- before it is stored again, so what an error leaves behind is there too.
use babble.Base.{
  ℕ, ℤ, String, Option, none, some, ltb_ℤ, if◌then◌else◌, ◌&&◌, not, Bool, true, false,
}
use babble.Common.Exec.{Exec, pure, attempt, modify, for_each, ◌>>=◌, ◌>>◌}
use babble.Common.Platform.{Platform}
use babble.Hashgraph.Event.{Event, set_round, set_lamport_timestamp}
use babble.Hashgraph.Crypto.{Crypto}
use babble.Hashgraph.RoundInfo.{RoundInfo, add_created_event}
use babble.Hashgraph.PendingRounds.{queued, set_pending}
use babble.Hashgraph.InmemStore.{get_event, set_event, set_round_info}
use babble.Hashgraph.State.{Hashgraph, on_store}
use babble.Hashgraph.Rounds.{round, witness, lamport_timestamp}
use babble.Hashgraph.Insert.{write_event}
use babble.Hashgraph.Reset.{round_or_new}

-- `h.roundLowerBound == nil || roundNumber > *h.roundLowerBound`
abbrev pub is_above_bound : Option ℤ → ℤ → Bool
is_above_bound none r = true
is_above_bound (some bound) r = ltb_ℤ bound r

-- a round that is not decided and above the bound is queued once
unfoldable pub queue_round : ℤ → RoundInfo → Hashgraph → Hashgraph
queue_round r info h =
    if not (queued h.pending_rounds r) && (not info.decided && is_above_bound h.round_lower_bound r)
    then record h {
      pending_rounds = set_pending h.pending_rounds (record { index = r; decided = false });
    }
    else h

module _ ⦃platform : Platform⦄ ⦃crypto : Crypto⦄ where
  -- an event is noted in its round, as a witness or not
  abbrev pub after_queued : ℕ → String → Event → ℤ → RoundInfo → Exec Hashgraph (Event × Bool)
  after_queued n x ev r info = do
    w ← witness n x
    on_store (set_round_info r (add_created_event info x w))
    pure (set_round ev r, true)

  -- the round of an event without one; the event as it is after that, and whether it changed
  abbrev pub assign_round : Option ℤ → ℕ → String → Event → Exec Hashgraph (Event × Bool)
  assign_round (some r) n x ev = pure (ev, false)
  assign_round none n x ev = do
    r ← round n x
    modify (write_event x (set_round ev r))
    info ← round_or_new r
    modify (queue_round r info)
    after_queued n x ev r info

  abbrev pub assign_timestamp : Option ℤ → ℕ → String → Event × Bool → Exec Hashgraph (Event × Bool)
  assign_timestamp (some t) n x changed = pure changed
  assign_timestamp none n x changed = do
    t ← lamport_timestamp n x
    modify (write_event x (set_lamport_timestamp changed.0 t))
    pure (set_lamport_timestamp changed.0 t, true)

  -- the error of SetEvent is not looked at
  abbrev pub store_if : Event × Bool → Exec Hashgraph (Unit {0})
  store_if (ev, false) = pure tt
  store_if (ev, true) = do r ← attempt (on_store (set_event ev)); pure tt

  -- one turn of the loop
  unfoldable pub divide_event : ℕ → String → Exec Hashgraph (Unit {0})
  divide_event n x = do
    ev ← on_store (get_event x)
    with_round ← assign_round ev.round n x ev
    with_timestamp ← assign_timestamp ev.lamport_timestamp n x with_round
    store_if with_timestamp

  unfoldable pub divide_rounds : ℕ → Exec Hashgraph (Unit {0})
  divide_rounds n h = for_each h.undetermined_events (divide_event n) h

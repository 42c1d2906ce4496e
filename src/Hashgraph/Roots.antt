-- ===== src/Hashgraph/Roots.antt =====
-- src/hashgraph/hashgraph.go, createFrameEvent and createRoot: an event as a frame holds it, and the
-- last events of a participant before a frame.
use babble.Base.{
  ℕ, zero, suc, ℤ, pos, ◌-ℤ◌, String, List, [], ◌∷◌, lookup, Option, none, some, leb_ℤ,
  if◌then◌else◌, Bool, true, false, string_key,
}
use mathlib.Core.List.{reverse}
use babble.Common.Errors.{Result, ok, err, panic, message}
use babble.Common.Exec.{Exec, pure, fail, lift, attempt, ◌>>=◌}
use babble.Common.Platform.{Platform}
use babble.Hashgraph.Event.{FrameEvent}
use babble.Hashgraph.Frame
use babble.Hashgraph.Frame.{Frame, Root, new_root}
use babble.Hashgraph.Crypto.{Crypto}
use babble.Hashgraph.RoundInfo.{RoundEvent}
use babble.Hashgraph.ParticipantEvents.{event_at}
use babble.Hashgraph.InmemStore.{get_event, get_round}
use babble.Hashgraph.State.{Hashgraph, on_store}
use babble.Hashgraph.Ancestry.{same_text}
use babble.Hashgraph.Rounds.{round, lamport_timestamp}
use babble.Hashgraph.Insert.{renamed}

-- `roundInfo.CreatedEvents[x]`
abbrev pub created_or_fail : Option RoundEvent → Exec Hashgraph RoundEvent
created_or_fail none = fail (message "CreatedEvents not found")
created_or_fail (some e) = pure e

module _ ⦃platform : Platform⦄ ⦃crypto : Crypto⦄ where
  unfoldable pub create_frame_event : ℕ → String → Exec Hashgraph FrameEvent
  create_frame_event n x = do
    stored ← attempt (on_store (get_event x))
    ev ← renamed "FrameEvent not found" stored
    r ← round n x
    info ← on_store (get_round r)
    te ← created_or_fail (lookup info.created_events x)
    t ← lamport_timestamp n x
    pure (record { core = ev; frame_round = r; timestamp = t; witness = te.witness })

  -- a participant's event before an index, or the end of the loop
  abbrev pub older_or_end :
      Result String → ℕ → Exec Hashgraph (List FrameEvent) → Exec Hashgraph (List FrameEvent)
  older_or_end (err e) n rest = pure []
  older_or_end panic n rest = lift panic
  older_or_end (ok x) n rest = do e ← create_frame_event n x; es ← rest; pure (e ∷ es)

  -- the events of a participant below an index, the latest first, at most so many
  abbrev pub older_events : ℕ → ℕ → String → ℤ → Exec Hashgraph (List FrameEvent)
  older_events n zero participant index h = (ok [], h)
  older_events n (suc depth) participant index h =
      let below = index -ℤ pos 1 in
      if leb_ℤ (pos 0) below
      then older_or_end (event_at h.store.participant_events_cache participant below) n
          (older_events n depth participant below) h
      else (ok [], h)

  abbrev pub insert_all : Root → List FrameEvent → Root
  insert_all r [] = r
  insert_all r (e ∷ es) = insert_all (Frame.insert_event r e) es

  abbrev pub root_depth : ℕ
  root_depth = 10

  abbrev pub root_below : Bool → ℕ → String → String → Exec Hashgraph Root
  root_below true n participant head = pure new_root
  root_below false n participant head = do
    e ← create_frame_event n head
    es ← older_events n root_depth participant e.core.body.index
    pure (insert_all new_root (reverse (e ∷ es)))

  unfoldable pub create_root : ℕ → String → String → Exec Hashgraph Root
  create_root n participant head = root_below (same_text head "") n participant head

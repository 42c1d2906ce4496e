-- ===== src/Hashgraph/Frames/Tests.antt =====
-- Runs of the frames.
use babble.Base.{inl, inr, ◌≡◌, refl, pos, [], ◌∷◌, true}
use mathlib.Core.List.{Permᴰ}
use babble.Common.Errors.{err, message}
use babble.Common.Platform.Sample.{sample_platform}
use babble.Hashgraph.Event.{FrameEvent}
use babble.Hashgraph.State.{Hashgraph, new_hashgraph}
use babble.Hashgraph.InmemStore.{new_inmem_store}
use babble.Hashgraph.Frames.{frame_event_less, sort_frame_events, get_anchor_block_with_frame}
use babble.Hashgraph.Frames.Sorted.{sort_frame_events_canonical}
use babble.Hashgraph.Sample.{sample_crypto, event_1, event_2}

abbrev first_event : FrameEvent
first_event = record { core = event_1; frame_round = pos 0; timestamp = pos 0; witness = true }

abbrev second_event : FrameEvent
second_event = record { core = event_2; frame_round = pos 0; timestamp = pos 1; witness = true }

sort_frame_events_canonical_example :
    sort_frame_events (second_event ∷ first_event ∷ [])
    ≡ sort_frame_events (first_event ∷ second_event ∷ [])
unfolding frame_event_less
sort_frame_events_canonical_example =
    sort_frame_events_canonical (second_event ∷ first_event ∷ []) (first_event ∷ second_event ∷ [])
      ∣ Permᴰ.swap refl refl ∣₁ ((inr (inl refl), tt), (tt, tt))

sorted_events :
    sort_frame_events (second_event ∷ first_event ∷ []) ≡ first_event ∷ second_event ∷ []
unfolding frame_event_less sort_frame_events
sorted_events = refl

abbrev fresh : Hashgraph
fresh = new_hashgraph (new_inmem_store 4)

no_anchor : (get_anchor_block_with_frame 1 fresh).0 ≡ err (message "No Anchor Block")
unfolding get_anchor_block_with_frame new_hashgraph
no_anchor = refl

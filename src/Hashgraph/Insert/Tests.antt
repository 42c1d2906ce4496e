-- ===== src/Hashgraph/Insert/Tests.antt =====
-- Runs of the insertion of events.
use babble.Base.{[], ◌∷◌, false, string_key}
use babble.Common.Platform.Sample.{sample_platform}
use babble.Hashgraph.Event.{Event, bare_event}
use babble.Hashgraph.State.{Hashgraph, new_hashgraph}
use babble.Hashgraph.Insert.{insert_event}
use babble.Hashgraph.Insert.Refused.{Inserted, insert_event-Inserted}
use babble.Hashgraph.Sample.{sample_crypto, with_events, event_body}

abbrev one_event : Hashgraph
one_event = new_hashgraph (with_events ("0X01" ∷ []) 0)

-- an event that refers to the last known event
abbrev next_event : Event
next_event = bare_event (event_body 2 "0X01") "sig"

insert_event-Inserted_example : Inserted one_event (insert_event 2 next_event false one_event)
insert_event-Inserted_example = insert_event-Inserted 2 next_event false one_event

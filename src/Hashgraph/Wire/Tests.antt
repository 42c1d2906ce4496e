-- ===== src/Hashgraph/Wire/Tests.antt =====
-- A run of the wire form.
use babble.Base.{
  ◌≡◌, refl, [], ◌∷◌, some, none, lookup, ℕ_discrete, String-discrete, Bool-cases, ◌+ℤ◌, ◌-ℤ◌,
}
use babble.Common.Errors.{ok}
use babble.Common.Platform.Sample.{sample_platform}
use babble.Common.Lru.{peek}
use babble.Common.RollingIndex.{get_item, oldest_cached}
use babble.Common.RollingIndexMap.{get_item_of}
use babble.Peers.Peer.{peer_id, pub_key_bytes, pub_key_string}
use babble.Hashgraph.Event.{bare_event, creator, to_wire}
use babble.Hashgraph.ParticipantEvents.{event_at, participant_id}
use babble.Hashgraph.InmemStore.{InmemStore}
use babble.Hashgraph.Wire.{set_wire_info, read_wire_info, decoded}
use babble.Hashgraph.Wire.RoundTrip.{IsPeer, IsParent, wired, read_wire_info-to_wire}
use babble.Hashgraph.Sample.{alice, event_1, event_2, with_events}

abbrev sender : InmemStore
sender = with_events ("0X00" ∷ "0X01" ∷ "0X02" ∷ []) 2

abbrev receiver : InmemStore
receiver = with_events ("0X00" ∷ "0X01" ∷ []) 1

alice_known : IsPeer sender receiver (creator event_2) alice
unfolding creator lookup peer_id pub_key_bytes ℕ_discrete String-discrete Bool-cases
alice_known = record { sent = refl; received = refl }

key_decoded : decoded (pub_key_string alice) ≡ ok (1 ∷ [])
unfolding pub_key_string String-discrete Bool-cases
key_decoded = refl

event_1_known : IsParent sender receiver "0X01" (some (event_1, alice))
unfolding peek lookup creator peer_id pub_key_bytes pub_key_string event_at participant_id
    get_item_of get_item oldest_cached ◌+ℤ◌ ◌-ℤ◌ ℕ_discrete String-discrete Bool-cases
event_1_known = (refl, refl, record { sent = refl; received = refl }, refl, refl)

read_wire_info-to_wire_example :
    ((set_wire_info event_2 sender).0 ≡ ok (wired event_2 alice (some (event_1, alice)) none))
    × (read_wire_info receiver (to_wire (wired event_2 alice (some (event_1, alice)) none))
        ≡ ok (bare_event (wired event_2 alice (some (event_1, alice)) none).body "sig"))
read_wire_info-to_wire_example =
    read_wire_info-to_wire sender receiver event_2 alice (some (event_1, alice)) none alice_known
      key_decoded event_1_known (refl, tt) refl tt

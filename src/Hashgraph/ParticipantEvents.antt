-- ===== src/Hashgraph/ParticipantEvents.antt =====
-- src/hashgraph/caches.go, ParticipantEventsCache: a rolling index of the events of each peer.
pub mod Last
use babble.Base.{ℕ, ℤ, String, List, [], lookup, GoMap, string_key}
use babble.Common.Errors.{
  base, text, Result, ok, err, panic, or_err, new_store_err, unknown_participant, ◌>>=◌,
}
use babble.Common.Platform.{Platform}
use babble.Common.RollingIndexMap
use babble.Common.RollingIndexMap.{
  RollingIndexMap, new_rolling_index_map, add_key, get_item_of, set_item_of,
}
use babble.Peers.Peer.{Peer, peer_id}
use babble.Peers.PeerSet.{PeerSet, new_peer_set, with_new_peer}

pub record ParticipantEventsCache : Type 0 where
  pub participants : PeerSet
  pub rim : RollingIndexMap String

module _ ⦃platform : Platform⦄ where
  unfoldable pub new_participant_events : ℕ → ParticipantEventsCache
  new_participant_events size = record {
    participants = new_peer_set [];
    rim = new_rolling_index_map (base "ParticipantEvents") size;
  }

  -- the new peer stays among the participants even if its key is refused
  unfoldable pub add_peer :
      ParticipantEventsCache → Peer → Result (Unit {0}) × ParticipantEventsCache
  add_peer pec peer =
      let participants = with_new_peer pec.participants peer in
      elim (add_key pec.rim (peer_id peer)) [
        | ok rim ↦ (ok tt, record { participants = participants; rim = rim })
        | err e ↦ (err e, record pec { participants = participants })
        | panic ↦ (panic, record pec { participants = participants })
      ]

  unfoldable pub participant_id : ParticipantEventsCache → String → Result ℕ
  participant_id pec participant = do
    peer ← or_err (lookup pec.participants.by_pub_key (platform.to_upper participant)) (
        new_store_err (base "ParticipantEvents") unknown_participant
          (text (platform.to_upper participant)))
    ok (peer_id peer)

  unfoldable pub events_after : ParticipantEventsCache → String → ℤ → Result (List String)
  events_after pec participant skip = do
    id ← participant_id pec participant
    RollingIndexMap.get pec.rim id skip

  unfoldable pub event_at : ParticipantEventsCache → String → ℤ → Result String
  event_at pec participant index = do
    id ← participant_id pec participant
    get_item_of pec.rim id index

  unfoldable pub last_event : ParticipantEventsCache → String → Result String
  last_event pec participant = do
    id ← participant_id pec participant
    RollingIndexMap.get_last pec.rim id

  set_for :
      Result ℕ → ParticipantEventsCache → String → ℤ → Result (Unit {0}) × ParticipantEventsCache
  set_for (ok id) pec hash index =
      let (r, rim) = set_item_of pec.rim id hash index in (r, record pec { rim = rim })
  set_for (err e) pec hash index = (err e, pec)
  set_for panic pec hash index = (panic, pec)

  unfoldable pub set_event_of :
      ParticipantEventsCache → String → String → ℤ → Result (Unit {0}) × ParticipantEventsCache
  unfolding set_for
  set_event_of pec participant hash index = set_for (participant_id pec participant) pec hash index

-- Known returns the last index of every participant
unfoldable pub known_events : ParticipantEventsCache → GoMap ℕ ℤ
known_events pec = RollingIndexMap.known pec.rim

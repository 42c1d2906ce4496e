-- ===== src/Hashgraph/Wire.antt =====
-- src/hashgraph/hashgraph.go, SetWireInfo and ReadWireInfo: an event travels with the identifiers of
-- its creators and the indexes of its parents in place of their keys and hashes. The repertoire
-- holds the peers of every peer-set.
pub mod RoundTrip
pub mod Tests
use babble.Base.{
  ℕ, ℤ, pos, minus_one, String, Option, some, none, lookup, leb_ℤ, if◌then◌else◌, string_key,
  nat_key,
}
use babble.Common.Errors.{Result, ok, err, panic, message, or_err, ◌>>=◌}
use babble.Common.Exec
use babble.Common.Exec.{Exec}
use babble.Common.Platform.{Platform, Bytes}
use babble.Peers.Peer.{Peer, peer_id, pub_key_string}
use babble.Hashgraph.Event.{
  Event, EventBody, WireEvent, bare_event, creator, set_wire_fields, unpack_block_signatures,
}
use babble.Hashgraph.Ancestry.{same_text}
use babble.Hashgraph.ParticipantEvents.{event_at}
use babble.Hashgraph.InmemStore.{InmemStore, get_event}

module _ ⦃platform : Platform⦄ where
  -- the peers of the repertoire, by key and by identifier; the number in a message is left out
  abbrev pub creator_by_key : String → InmemStore → Result Peer
  creator_by_key key s =
      or_err (lookup s.peer_set_cache.repertoire_by_pub_key key) (message "Creator not found")

  abbrev pub creator_by_id : ℕ → String → InmemStore → Result Peer
  creator_by_id i what s = or_err (lookup s.peer_set_cache.repertoire_by_id i) (message what)

  -- the index of the self-parent, or -1
  abbrev pub index_of : String → Exec InmemStore ℤ
  index_of hash =
      if same_text hash ""
      then Exec.pure minus_one
      else Exec.◌>>=◌ (get_event hash) (λ e. Exec.pure e.body.index)

  -- the identifier of the other-parent's creator and its index, or 0 and -1
  abbrev pub place_of : String → Exec InmemStore (ℕ × ℤ)
  place_of hash =
      if same_text hash ""
      then Exec.pure (0, minus_one)
      else Exec.◌>>=◌ (get_event hash) (λ e s.
        Exec.continue (creator_by_key (creator e) s) (λ p. Exec.pure (peer_id p, e.body.index)) s)

  unfoldable pub set_wire_info : Event → Exec InmemStore Event
  set_wire_info event s =
      Exec.continue (creator_by_key (creator event) s)
        (λ peer. Exec.◌>>=◌ (index_of event.body.self_parent) (λ self_parent_index.
          Exec.◌>>=◌ (place_of event.body.other_parent) (λ place.
            Exec.pure (set_wire_fields event self_parent_index place.0 place.1 (peer_id peer)))))
        s

  -- common.DecodeFromString
  abbrev pub decoded : String → Result Bytes
  decoded text = elim (platform.decode_error text) [
    | none ↦ ok (platform.decode_hex text)
    | some e ↦ err e
  ]

  abbrev pub hash_at : InmemStore → String → ℤ → Result String
  hash_at s participant index =
      if leb_ℤ (pos 0) index then event_at s.participant_events_cache participant index else ok ""

  -- the error of a lookup of the other-parent, with a message of its own
  abbrev pub renamed : Result String → Result String
  renamed (err e) = err (message "OtherParent not found")
  renamed r = r

  abbrev pub other_parent_of : InmemStore → WireEvent → Result String
  other_parent_of s w =
      if leb_ℤ (pos 0) w.body.other_parent_index
      then (do
        peer ← creator_by_id w.body.other_parent_creator_id "Participant not found" s
        renamed
            (event_at s.participant_events_cache (pub_key_string peer) w.body.other_parent_index))
      else ok ""

  abbrev pub unpacked : WireEvent → Bytes → String → String → Event
  unpacked w creator_bytes self_parent other_parent =
      bare_event
        (record {
          transactions = w.body.transactions;
          internal_transactions = w.body.internal_transactions;
          block_signatures = unpack_block_signatures w creator_bytes;
          self_parent = self_parent;
          other_parent = other_parent;
          creator = creator_bytes;
          index = w.body.index;
          timestamp = w.body.timestamp;
          self_parent_index = w.body.self_parent_index;
          other_parent_creator_id = w.body.other_parent_creator_id;
          other_parent_index = w.body.other_parent_index;
          creator_id = w.body.creator_id;
        })
        w.signature

  unfoldable pub read_wire_info : InmemStore → WireEvent → Result Event
  read_wire_info s w = do
    peer ← creator_by_id w.body.creator_id "Creator not found" s
    creator_bytes ← decoded (pub_key_string peer)
    self_parent ← hash_at s (pub_key_string peer) w.body.self_parent_index
    other_parent ← other_parent_of s w
    ok (unpacked w creator_bytes self_parent other_parent)

-- ===== src/Hashgraph/Wire/RoundTrip.antt =====
-- An event that one node sends is read by another as the event that was signed.
use babble.Base.{
  ℕ, ℤ, pos, minus_one, String, List, [], ◌∷◌, map, ◌≡◌, ◌∙◌, subst, refl, sym, Option, some, none,
  lookup, leb_ℤ, All, if_pos, String-discrete, true, false, string_key, nat_key,
}
use babble.Common.Errors.{ok}
use babble.Common.Platform.{Platform, Bytes}
use babble.Common.Lru.{peek}
use babble.Common.Lru.Contents.{peek-get}
use babble.Peers.Peer.{Peer, peer_id, pub_key_string}
use babble.Hashgraph.Event.{
  Event, BlockSignature, bare_event, creator, set_wire_fields, to_wire, wire_block_signatures,
  signature_to_wire, unpack_block_signatures,
}
use babble.Hashgraph.Ancestry.{same_text}
use babble.Hashgraph.InmemStore.{InmemStore, get_event}
use babble.Hashgraph.ParticipantEvents.{event_at}
use babble.Hashgraph.Wire.{
  set_wire_info, read_wire_info, index_of, place_of, decoded, hash_at, other_parent_of,
}

module _ ⦃platform : Platform⦄ where
  -- A peer that both nodes know, by its key at the sender and by its identifier at the receiver.
  pub record IsPeer (s t : InmemStore) (key : String) (p : Peer) : Type 0 where
    pub sent : lookup s.peer_set_cache.repertoire_by_pub_key key ≡ some p
    pub received : lookup t.peer_set_cache.repertoire_by_id (peer_id p) ≡ some p

  -- A parent that both nodes have, with its creator's peer, or no parent.
  abbrev pub IsParent : InmemStore → InmemStore → String → Option (Event × Peer) → Type 0
  IsParent s t hash none = hash ≡ ""
  IsParent s t hash (some (e, p)) =
      (same_text hash "" ≡ false)
      × (peek s.event_cache hash ≡ some e)
      × IsPeer s t (creator e) p
      × (event_at t.participant_events_cache (pub_key_string p) e.body.index ≡ ok hash)
      × (leb_ℤ (pos 0) e.body.index ≡ true)

  abbrev pub parent_index : Option (Event × Peer) → ℤ
  parent_index none = minus_one
  parent_index (some e) = e.0.body.index

  abbrev pub parent_creator : Option (Event × Peer) → ℕ
  parent_creator none = 0
  parent_creator (some e) = peer_id e.1

  abbrev pub creators : Option (Event × Peer) → List Peer
  creators none = []
  creators (some e) = e.1 ∷ []

  abbrev pub wired : Event → Peer → Option (Event × Peer) → Option (Event × Peer) → Event
  wired e p sp op =
      set_wire_fields e (parent_index sp) (parent_creator op) (parent_index op) (peer_id p)

  same_text_refl : (x : String) → same_text x x ≡ true
  same_text_refl x = rw (if_pos (String-discrete x x) refl) refl

  get_event_lem :
      (s : InmemStore) (hash q : String) (e : Event)
      → peek s.event_cache hash ≡ some e
      → ((get_event hash s).0 ≡ ok e)
        × (peek (get_event hash s).1.event_cache q ≡ peek s.event_cache q)
  unfolding get_event
  get_event_lem s hash q e h =
      (rw ((peek-get s.event_cache hash q).0, h) refl, (peek-get s.event_cache hash q).1)

  index_of_lem :
      (s t : InmemStore) (hash q : String) (sp : Option (Event × Peer))
      → IsParent s t hash sp
      → ((index_of hash s).0 ≡ ok (parent_index sp))
        × (peek (index_of hash s).1.event_cache q ≡ peek s.event_cache q)
        × ((index_of hash s).1.peer_set_cache ≡ s.peer_set_cache)
  unfolding get_event
  index_of_lem s t hash q none h = rw (h, same_text_refl "") (refl, refl, refl)
  index_of_lem s t hash q (some (e, p)) h =
      let (r, k) = get_event_lem s hash q e h.1 in rw h.0 (rw r (refl, k, refl))

  place_of_lem :
      (s t u : InmemStore) (hash : String) (op : Option (Event × Peer))
      → IsParent s t hash op
      → peek u.event_cache hash ≡ peek s.event_cache hash
      → u.peer_set_cache ≡ s.peer_set_cache
      → (place_of hash u).0 ≡ ok (parent_creator op, parent_index op)
  unfolding get_event
  place_of_lem s t u hash none h seen same = rw (h, same_text_refl "") refl
  place_of_lem s t u hash (some (e, p)) h seen same =
      let (r, k) = get_event_lem u hash hash e (seen ∙ h.1) in
      rw h.0 (rw r (rw (same, h.2.sent) refl))

  unpack_lem :
      (validator : Bytes) (sigs : List BlockSignature)
      → All (λ bs. bs.validator ≡ validator) sigs
      → map
          (λ bs. record { validator = validator; index = bs.index; signature = bs.signature })
          (map signature_to_wire sigs)
        ≡ sigs
  unfolding signature_to_wire
  unpack_lem validator [] h = refl
  unpack_lem validator (bs ∷ sigs) h = rw (unpack_lem validator sigs h.1, sym h.0) refl

  -- what the receiver takes for the other-parent
  other_parent_of_lem :
      (s t : InmemStore) (e : Event) (p : Peer) (sp op : Option (Event × Peer))
      → IsParent s t e.body.other_parent op
      → other_parent_of t (to_wire (wired e p sp op)) ≡ ok e.body.other_parent
  unfolding to_wire set_wire_fields
  other_parent_of_lem s t e p sp none h = rw h refl
  other_parent_of_lem s t e p sp (some (o, q)) h = rw h.4 (rw h.2.received (rw h.3 refl))

  -- and for the self-parent, whose creator is the event's
  hash_at_lem :
      (s t : InmemStore) (e : Event) (p : Peer) (sp : Option (Event × Peer))
      → IsParent s t e.body.self_parent sp
      → All (λ q. q ≡ p) (creators sp)
      → hash_at t (pub_key_string p) (parent_index sp) ≡ ok e.body.self_parent
  hash_at_lem s t e p none h own = rw h refl
  hash_at_lem s t e p (some (o, q)) h own = rw h.4 (
      subst
        (λ (x : Peer).
          event_at t.participant_events_cache (pub_key_string x) o.body.index
          ≡ ok e.body.self_parent)
        own.0 h.3)

  -- If both nodes have the event's creator and its parents, the self-parent being of the same
  -- creator, then the sender sets its wire fields, and the receiver reads from the wire form an
  -- event with the same body and the same signature. The block signatures are the creator's own, and
  -- the key that the receiver knows is decoded as the creator's bytes.
  pub read_wire_info-to_wire :
      (s t : InmemStore) (e : Event) (p : Peer) (sp op : Option (Event × Peer))
      → IsPeer s t (creator e) p
      → decoded (pub_key_string p) ≡ ok e.body.creator
      → IsParent s t e.body.self_parent sp
      → All (λ q. q ≡ p) (creators sp)
      → IsParent s t e.body.other_parent op
      → All (λ bs. bs.validator ≡ e.body.creator) e.body.block_signatures
      → ((set_wire_info e s).0 ≡ ok (wired e p sp op))
        × (read_wire_info t (to_wire (wired e p sp op))
            ≡ ok (bare_event (wired e p sp op).body e.signature))
  unfolding set_wire_info read_wire_info to_wire set_wire_fields wire_block_signatures
      unpack_block_signatures
  read_wire_info-to_wire s t e p sp op peer key self own other sigs =
      let (i, seen, same) = index_of_lem s t e.body.self_parent e.body.other_parent sp self in
      (
        rw peer.sent (
            rw i (
              rw
                (place_of_lem s t (index_of e.body.self_parent s).1 e.body.other_parent op other
                  seen same)
                refl)),
        rw peer.received (
            rw key (
              rw (hash_at_lem s t e p sp self own) (
                rw (other_parent_of_lem s t e p sp op other)
                  (rw (unpack_lem e.body.creator e.body.block_signatures sigs) refl)))),
      )

-- ===== src/Hashgraph/Sample.antt =====
-- Data for the tests of the hashgraph: an encoding that keeps the index of an event, events of one
-- creator, a block and a store.
use babble.Base.{ℕ, pos, pos_part, String, List, [], ◌∷◌, true}
use babble.Common.Errors.{ok, base}
use babble.Common.Platform.{Bytes}
use babble.Common.Platform.Sample.{sample_platform}
use babble.Peers.Peer.{Peer}
use babble.Peers.PeerSet.{PeerSet}
use babble.Hashgraph.Event.{Event, EventBody, CoordinatesMap, bare_event}
use babble.Hashgraph.Crypto.{Crypto}
use babble.Hashgraph.Block.{Block}
use babble.Hashgraph.InmemStore.{InmemStore, new_inmem_store}

instance abbrev pub sample_crypto : Crypto
sample_crypto = record {
  event_json = λ body. pos_part body.index ∷ [];
  itx_json = λ _. [];
  block_json = λ body. pos_part body.index ∷ [];
  frame_json = λ frame. pos_part frame.round ∷ [];
  sha256 = λ bytes. bytes;
  check_signature = λ _ _ _. ok true;
  signature_r = λ _. pos 0;
}

abbrev pub alice : Peer
alice = record { net_addr = "a"; pub_key_hex = "0X01"; moniker = "alice" }

abbrev pub bob : Peer
bob = record { net_addr = "b"; pub_key_hex = "0X02"; moniker = "bob" }

abbrev pub carol : Peer
carol = record { net_addr = "c"; pub_key_hex = "0X03"; moniker = "carol" }

abbrev pub only_alice : PeerSet
only_alice = record {
  peers = alice ∷ [];
  by_pub_key = ("0X01", alice) ∷ [];
  by_id = (1, alice) ∷ [];
}

abbrev pub three_peers : PeerSet
three_peers = record {
  peers = alice ∷ bob ∷ carol ∷ [];
  by_pub_key = ("0X01", alice) ∷ ("0X02", bob) ∷ ("0X03", carol) ∷ [];
  by_id = (1, alice) ∷ (2, bob) ∷ (3, carol) ∷ [];
}

-- an event of the peer `alice`
abbrev pub event_body : ℕ → String → EventBody
event_body index self_parent = record {
  transactions = [];
  internal_transactions = [];
  self_parent = self_parent;
  other_parent = "";
  creator = 1 ∷ [];
  index = pos index;
  block_signatures = [];
  timestamp = pos 0;
  creator_id = 0;
  other_parent_creator_id = 0;
  self_parent_index = pos 0;
  other_parent_index = pos 0;
}

abbrev pub coordinates : ℕ → CoordinatesMap
coordinates index = ("0X01", record { hash = "h"; index = pos index }) ∷ []

abbrev pub event_1 : Event
event_1 = record (bare_event (event_body 1 "") "sig") {
  last_ancestors = coordinates 1;
  first_descendants = coordinates 1;
}

abbrev pub event_2 : Event
event_2 = record (bare_event (event_body 2 "0X01") "sig") {
  last_ancestors = coordinates 2;
  first_descendants = coordinates 2;
}

abbrev pub block_3 : List (String × String) → Bytes → Block
block_3 signatures peers_hash = record {
  body = record {
    index = pos 3;
    round_received = pos 0;
    timestamp = pos 0;
    state_hash = [];
    frame_hash = [];
    peers_hash = peers_hash;
    transactions = [];
    internal_transactions = [];
    receipts = [];
  };
  signatures = signatures;
}

-- a store with events of the peer `alice`, from index 0 on
abbrev pub with_events : List String → ℕ → InmemStore
with_events hashes last = record (new_inmem_store 10) {
  event_cache = record { size = 10; evict_list = ("0X01", event_1) ∷ ("0X02", event_2) ∷ [] };
  participant_events_cache = record {
    participants = only_alice;
    rim = record {
      name = base "ParticipantEvents";
      size = 10;
      keys = 1 ∷ [];
      mapping =
          (1, record { name = base "p"; size = 10; last_index = pos last; items = hashes }) ∷ [];
    };
  };
  peer_set_cache = record {
    rounds = pos 0 ∷ [];
    peer_sets = (pos 0, only_alice) ∷ [];
    repertoire_by_pub_key = ("0X01", alice) ∷ [];
    repertoire_by_id = (1, alice) ∷ [];
    first_rounds = (1, pos 0) ∷ [];
  };
}

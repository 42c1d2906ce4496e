-- ===== src/Node/PeerSelector.antt =====
-- src/node/peer_selector.go and validator.go: the choice of the next peer to gossip with. The random
-- number generator of math/rand is a function of the bound. An index out of range, a nil pointer and
-- a call of rand.Intn with 0 panic.
use babble.Base.{
  ℕ, zero, suc, List, [], ◌∷◌, GoMap, insert, lookup, length, Option, none, some, nat_key, select,
  not, ◌&&◌, ◌==◌, Bool, false, String,
}
use babble.Common.Errors.{Result, ok, panic, ◌>>=◌}
use babble.Common.Platform.{Platform, Bytes}
use babble.Peers.Peer.{Peer, peer_id, exclude_peer}
use babble.Peers.PeerSet.{PeerSet}

-- the key of the node, without its private part
pub record Validator : Type 0 where
  pub moniker : String
  pub public_key : Bytes

pub record PeerSelectorItem : Type 0 where
  pub peer : Peer
  pub connected : Bool

pub record PeerSelector : Type 0 where
  pub peers : PeerSet
  pub self_id : ℕ
  pub selectable_map : GoMap ℕ PeerSelectorItem
  pub selectable_slice : List ℕ
  pub last : ℕ

module _ ⦃platform : Platform⦄ where
  unfoldable pub validator_id : Validator → ℕ
  validator_id v = platform.hash32 v.public_key

  unfoldable pub public_key_hex : Validator → String
  public_key_hex v = platform.encode_hex v.public_key

  -- the loop of newRandomPeerSelector
  abbrev pub items_of : GoMap ℕ PeerSelectorItem → List Peer → GoMap ℕ PeerSelectorItem
  items_of m [] = m
  items_of m (p ∷ ps) = items_of (insert m (peer_id p) (record { peer = p; connected = false })) ps

  abbrev pub ids_of : List Peer → List ℕ
  ids_of [] = []
  ids_of (p ∷ ps) = peer_id p ∷ ids_of ps

  unfoldable pub new_random_peer_selector : PeerSet → ℕ → PeerSelector
  new_random_peer_selector peer_set self_id =
      let others = (exclude_peer peer_set.peers self_id).1 in
      record {
        peers = peer_set;
        self_id = self_id;
        selectable_map = items_of [] others;
        selectable_slice = ids_of others;
        last = 0;
      }

-- updateLast: the selector, and whether the connection is new
unfoldable pub update_last : PeerSelector → ℕ → Bool → PeerSelector × Bool
update_last ps peer connected = elim (lookup ps.selectable_map peer) [
  | none ↦ (record ps { last = peer }, false)
  | some item ↦ (
    record ps {
      last = peer;
      selectable_map = insert ps.selectable_map peer (record item { connected = connected });
    },
    not item.connected && connected,
  )
]

abbrev pub element : List ℕ → ℕ → Result ℕ
element [] i = panic
element (x ∷ xs) zero = ok x
element (x ∷ xs) (suc i) = element xs i

module _ (random : ℕ → ℕ) where
  -- `otherPeers[rand.Intn(len(otherPeers))]`
  abbrev pub random_element : List ℕ → Result ℕ
  random_element [] = panic
  random_element (x ∷ xs) = element (x ∷ xs) (random (length (x ∷ xs)))

  abbrev pub next_id : ℕ → List ℕ → Result ℕ
  next_id last [] = panic
  next_id last (x ∷ []) = ok x
  next_id last (x ∷ y ∷ xs) = random_element (select (λ pid. not (pid == last)) (x ∷ y ∷ xs))

  abbrev pub peer_of : Option PeerSelectorItem → Result (Option Peer)
  peer_of none = panic
  peer_of (some item) = ok (some item.peer)

  unfoldable pub next : PeerSelector → Result (Option Peer)
  next ps = elim ps.selectable_slice [
    | [] ↦ ok none
    | x ∷ xs ↦ do id ← next_id ps.last (x ∷ xs); peer_of (lookup ps.selectable_map id)
  ]

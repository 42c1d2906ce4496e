-- ===== src/Peers/PeerSet.antt =====
-- src/peers/peer_set.go. The cached fields (`hash`, `hex`, `superMajority`, `trustCount`) hold what
-- the methods compute, and are not modelled.
pub mod Members
pub mod Quorum
pub mod Tests
use Prim.Native.String.{String}
use babble.Base.{
  ℕ, ◌+◌, ◌*◌, ◌/◌, List, [], ◌∷◌, ◌++◌, map, GoMap, insert, lookup, length, Option, none, some,
  is_some, ltb, not, if◌then◌else◌, select, ite, string_key, nat_key, Bool, true, false,
  String-discrete,
}
use mathlib.Core.List.{foldl}
use babble.Common.Platform.{Platform}
use babble.Peers.Peer.{Peer, peer_id, pub_key_string}

pub record PeerSet : Type 0 where
  pub peers : List Peer
  pub by_pub_key : GoMap String Peer
  pub by_id : GoMap ℕ Peer

-- `p.PubKeyHex != peer.PubKeyHex`
abbrev pub other_key : Peer → Peer → Bool
other_key peer p = ite (String-discrete p.pub_key_hex peer.pub_key_hex) false true

module _ ⦃platform : Platform⦄ where
  -- the loop of `initMaps`
  abbrev pub index_pub_keys : GoMap String Peer → List Peer → GoMap String Peer
  index_pub_keys m [] = m
  index_pub_keys m (p ∷ ps) = index_pub_keys (insert m (pub_key_string p) p) ps

  abbrev pub index_ids : GoMap ℕ Peer → List Peer → GoMap ℕ Peer
  index_ids m [] = m
  index_ids m (p ∷ ps) = index_ids (insert m (peer_id p) p) ps

  -- NewPeerSet, initMaps
  unfoldable pub new_peer_set : List Peer → PeerSet
  new_peer_set ps = record {
    peers = ps;
    by_pub_key = index_pub_keys [] ps;
    by_id = index_ids [] ps;
  }

  unfoldable pub with_new_peer : PeerSet → Peer → PeerSet
  with_new_peer ps peer =
      if is_some (lookup ps.by_id (peer_id peer))
      then new_peer_set ps.peers
      else new_peer_set (ps.peers ++ peer ∷ [])

  unfoldable pub with_removed_peer : PeerSet → Peer → PeerSet
  with_removed_peer ps peer = new_peer_set (select (other_key peer) ps.peers)

  unfoldable pub pub_keys : PeerSet → List String
  pub_keys ps = map pub_key_string ps.peers

  unfoldable pub ids : PeerSet → List ℕ
  ids ps = map peer_id ps.peers

unfoldable pub len : PeerSet → ℕ
len ps = length ps.by_pub_key

-- 2 * Len() / 3 + 1
unfoldable pub super_majority : PeerSet → ℕ
super_majority ps = 2 * len ps / 3 + 1

-- The quotient rounded up, which the source computes by `math.Ceil` on floats.
unfoldable pub trust_count : PeerSet → ℕ
trust_count ps = if ltb 1 (length ps.peers) then (len ps + 2) / 3 else 0

-- ===== src/Peers/PeerSet/Tests.antt =====
-- Runs of the peer-sets.
use babble.Base.{
  count, ◌≡◌, refl, ◌*◌, ◌<◌, String, [], ◌∷◌, lookup, insert, some, none, arith, ℕ_discrete,
  String-discrete, Bool-cases, nat_key, string_key, Bool, keys, ◌&&◌, true,
}
use babble.Common.Platform.Sample.{sample_platform}
use babble.Peers.Peer.{Peer, peer_id, pub_key_string, pub_key_bytes}
use babble.Peers.PeerSet.{
  PeerSet, new_peer_set, with_new_peer, with_removed_peer, len, super_majority,
}
use babble.Peers.PeerSet.Members.{lookup-with_new_peer, lookup-with_removed_peer}
use babble.Peers.PeerSet.Quorum.{super_majorities_meet}

abbrev alice : Peer
alice = record { net_addr = "a"; pub_key_hex = "0X01"; moniker = "alice" }

abbrev bob : Peer
bob = record { net_addr = "b"; pub_key_hex = "0X02"; moniker = "bob" }

abbrev carol : Peer
carol = record { net_addr = "c"; pub_key_hex = "0X03"; moniker = "carol" }

new_maps : new_peer_set (alice ∷ bob ∷ []) ≡ new_peer_set (new_peer_set (alice ∷ bob ∷ [])).peers
unfolding new_peer_set
new_maps = refl

lookup-with_new_peer_example :
    lookup (with_new_peer (new_peer_set (alice ∷ bob ∷ [])) carol).by_id 3 ≡ some carol
unfolding new_peer_set peer_id pub_key_bytes lookup insert ℕ_discrete String-discrete Bool-cases
lookup-with_new_peer_example =
    lookup-with_new_peer (new_peer_set (alice ∷ bob ∷ [])) carol 3 new_maps

lookup-with_removed_peer_example :
    lookup (with_removed_peer (new_peer_set (alice ∷ bob ∷ [])) bob).by_pub_key "0X02" ≡ none
unfolding new_peer_set pub_key_string String-discrete Bool-cases
lookup-with_removed_peer_example =
    lookup-with_removed_peer (new_peer_set (alice ∷ bob ∷ [])) bob "0X02" new_maps
      (refl, (refl, tt))

abbrev three : PeerSet
three = record {
  peers = alice ∷ bob ∷ carol ∷ [];
  by_pub_key = ("0X01", alice) ∷ ("0X02", bob) ∷ ("0X03", carol) ∷ [];
  by_id = (1, alice) ∷ (2, bob) ∷ (3, carol) ∷ [];
}

abbrev anyone : String → Bool
anyone _ = true

super_majorities_meet_example :
    len three < 3 * count (λ k. anyone k && anyone k) (keys three.by_pub_key)
unfolding super_majority len
super_majorities_meet_example =
    super_majorities_meet three anyone anyone (omega arith) (omega arith)

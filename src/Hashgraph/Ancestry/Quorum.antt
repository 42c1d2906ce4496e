-- ===== src/Hashgraph/Ancestry/Quorum.antt =====
-- Two events that strongly see events do so through common peers.
use babble.Base.{
  count, ◌*◌, ◌<◌, ◌≤◌, ◌≡◌, refl, String, [], ◌∷◌, GoMap, keys, Bool, true, ◌&&◌, arith,
}
use babble.Peers.Peer.{Peer}
use babble.Peers.PeerSet.{PeerSet, len, super_majority}
use babble.Peers.PeerSet.Quorum.{super_majorities_meet}
use babble.Hashgraph.Event.{Event, CoordinatesMap}
use babble.Hashgraph.Ancestry.{seen_through, count_seen, strongly_sees}

count_seen_lem :
    (la fd : CoordinatesMap) (m : GoMap String Peer)
    → count_seen la fd m ≡ count (seen_through la fd) (keys m)
count_seen_lem la fd [] = refl
count_seen_lem la fd ((p, peer) ∷ m) = ground (arith, count_seen_lem la fd m)

-- the peers through which one event sees another
abbrev pub through : Event → Event → String → Bool
through ex ey = seen_through ex.last_ancestors ey.first_descendants

strongly_sees_lem :
    (ex ey : Event) (ps : PeerSet)
    → strongly_sees ex ey ps ≡ true
    → super_majority ps ≤ count (through ex ey) (keys ps.by_pub_key)
unfolding strongly_sees
strongly_sees_lem ex ey ps h =
    ground (arith, count_seen_lem ex.last_ancestors ey.first_descendants ps.by_pub_key, h)

-- If one event strongly sees a second, and a third strongly sees a fourth, then more than a third of
-- the peers are among those through which both do.
pub strongly_sees_meet :
    (ex ey fx fy : Event) (ps : PeerSet)
    → strongly_sees ex ey ps ≡ true
    → strongly_sees fx fy ps ≡ true
    → len ps < 3 * count (λ p. through ex ey p && through fx fy p) (keys ps.by_pub_key)
strongly_sees_meet ex ey fx fy ps h k =
    super_majorities_meet ps (through ex ey) (through fx fy) (strongly_sees_lem ex ey ps h)
      (strongly_sees_lem fx fy ps k)

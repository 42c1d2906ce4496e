-- ===== src/Peers.antt =====
-- src/peers: a peer, and a set of peers with its quorums.
pub mod Peer
pub mod PeerSet

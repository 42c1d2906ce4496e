-- ===== src/Node.antt =====
-- src/node: the node around the hashgraph.
pub mod State
pub mod PeerSelector
pub mod Core

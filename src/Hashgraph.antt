-- ===== src/Hashgraph.antt =====
-- src/hashgraph: events, rounds, blocks, the caches and stores that hold them, and the consensus
-- methods.
pub mod RoundInfo
pub mod PendingRounds
pub mod PeerSetCache
pub mod Event
pub mod Frame
pub mod Crypto
pub mod Block
pub mod SigPool
pub mod ParticipantEvents
pub mod InmemStore
pub mod State
pub mod Ancestry
pub mod Sample
pub mod Anchor
pub mod Wire
pub mod Rounds
pub mod Coordinates
pub mod Insert
pub mod Divide
pub mod Voting
pub mod Received
pub mod Roots
pub mod Frames
pub mod Reset
pub mod Process

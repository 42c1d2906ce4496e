-- ===== src/Hashgraph/Frame.antt =====
-- src/hashgraph/frame.go, root.go and the body of a block (block.go).
use babble.Base.{ℤ, String, List, [], ◌∷◌, ◌++◌, GoMap}
use babble.Common.Platform.{Bytes}
use babble.Peers.Peer.{Peer}
use babble.Hashgraph.Event.{FrameEvent, InternalTransaction, InternalTransactionReceipt}

pub record Root : Type 0 where
  pub events : List FrameEvent

unfoldable pub new_root : Root
new_root = record { events = [] }

unfoldable pub insert_event : Root → FrameEvent → Root
insert_event r e = record { events = r.events ++ e ∷ [] }

pub record Frame : Type 0 where
  pub round : ℤ
  pub peers : List Peer
  pub roots : GoMap String Root
  pub events : List FrameEvent
  pub peer_sets : GoMap ℤ (List Peer)
  pub timestamp : ℤ

pub record BlockBody : Type 0 where
  pub index : ℤ
  pub round_received : ℤ
  pub timestamp : ℤ
  pub state_hash : Bytes
  pub frame_hash : Bytes
  pub peers_hash : Bytes
  pub transactions : List Bytes
  pub internal_transactions : List InternalTransaction
  pub receipts : List InternalTransactionReceipt

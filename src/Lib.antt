-- ===== src/Lib.antt =====
-- Verification of babble, a node of a hashgraph consensus network: the data, the caches and the store
-- of the hashgraph, the consensus methods, and the core through which a node uses them.
--
-- The program. Nodes exchange events. An event has a creator, a self-parent and an other-parent, and
-- carries transactions and signatures of blocks. A Hashgraph (src/hashgraph/hashgraph.go) checks and
-- inserts events, gives them rounds, lets witnesses vote on the fame of the witnesses of earlier
-- rounds, and orders what a decided round has received into frames and blocks. Validators sign blocks;
-- a block with enough signatures becomes the anchor from which other nodes start. The state is held in
-- a Store with caches of a limited size, and the peers of each round are in peer-sets. The core of a
-- node (src/node/core.go) makes the node's own events, inserts those of others, and is called back by
-- the hashgraph to commit a block: it asks the application, signs, and changes the peer-sets.
--
-- The files. Each module is named for the code it models, and its children for what they prove; a
-- child Tests holds runs of the code, and Sample the data for them.
--   Base: names of the libraries, numbers, lists, maps (a Go map is an association list in the order
--     of its `range`).
--   Common/Errors, Common/Exec, Common/Platform: Go's error values, methods that change an object and
--     may fail or panic, and what is taken from Go's standard library.
--   Common/RollingIndex, Common/RollingIndexMap, Common/Lru, Common/Median: src/common.
--   Peers/Peer, Peers/PeerSet: src/peers.
--   Hashgraph/RoundInfo: src/hashgraph/roundInfo.go. Hashgraph/PendingRounds, PeerSetCache, SigPool,
--     ParticipantEvents: src/hashgraph/caches.go. Hashgraph/Event, Block, Frame: event.go,
--     internal_transaction.go, block.go, frame.go, root.go. Hashgraph/InmemStore: inmem_store.go.
--   Hashgraph/State: the fields of a Hashgraph. Hashgraph/Ancestry: ancestor, selfAncestor,
--     stronglySee. Hashgraph/Rounds: round, witness, lamportTimestamp. Hashgraph/Coordinates:
--     checkSelfParent, checkOtherParent, initEventCoordinates.
--     Hashgraph/Wire: SetWireInfo, ReadWireInfo. Hashgraph/Anchor: ProcessSigPool, SetAnchorBlock,
--     CheckBlock. Hashgraph/Insert: InsertEvent, Event.Verify, updateAncestorFirstDescendant.
--     Hashgraph/Divide: DivideRounds. Hashgraph/Voting: DecideFame. Hashgraph/Received:
--     DecideRoundReceived. Hashgraph/Roots, Frames, Reset: createRoot, GetFrame, Reset,
--     InsertFrameEvent. Hashgraph/Process: ProcessDecidedRounds, InsertEventAndRunConsensus.
--   Node/Core: src/node/core.go and promise.go, with Core/Commit (commit, signBlock,
--     processAcceptedInternalTransactions), Core/SelfEvents (sync, recordHeads, addSelfEvent),
--     Core/FastForward (fastForward, setHeadAndSeq) and Core/Diff (eventDiff, and the limit of
--     processSyncRequest in node_rpc.go). Node/PeerSelector: peer_selector.go, validator.go. Node/State:
--     state/state.go.
--   Hashgraph/Crypto: the encodings, SHA256 and the check of signatures, as parameters.
--
-- Conventions. An `int` is an integer without a bound: indexes and rounds count events, which stay far
-- below 2^63; the timestamps, which their creators choose, wrap around at 64 bits where the median adds
-- them. A method that changes its object returns the new object beside its result, also when it
-- fails. A cached Go object is a value: where the program changes one through its pointer and may
-- fail before it writes it back, the model overwrites the cached value.
--
-- Fuel. The rounds and timestamps of events are computed by recursion over the parents, and the first
-- descendants by a loop down the self-parents; both run on fuel, and running out is a panic, as an
-- overflow of the stack is. Every other loop is over a list or a number of rounds. An insertion that
-- checks the parents is what keeps the graph without cycles.
--
-- Not modelled: the encodings as JSON and the badger database with Bootstrap, which replays it,
-- the transports and the proxies to the application. Signing and the application's answers are
-- parameters of the core. The goroutines, timers and channels of src/node/node.go are left out.
mod Base
pub mod Common
pub mod Peers
pub mod Hashgraph
pub mod Node

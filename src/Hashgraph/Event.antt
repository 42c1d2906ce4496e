-- ===== src/Hashgraph/Event.antt =====
-- src/hashgraph/event.go: events and their wire form. An event's `Parents` are its self-parent and
-- its other-parent, and are two in every event that NewEvent or ReadWireInfo makes. The fields
-- `creator`, `hash` and `hex` cache what the methods compute; nil slices are empty lists.
use babble.Base.{
  ℕ, ℤ, pos, String, List, [], map, GoMap, length, Option, none, some, ltb, eqb_ℤ, if◌then◌else◌,
  ◌||◌, Bool, true, false,
}
use babble.Common.Platform.{Platform, Bytes}
use babble.Peers.Peer.{Peer}

-- internal_transaction.go
pub data TransactionType : Type 0 where
  peer_add peer_remove : TransactionType
  unknown : ℕ → TransactionType

pub record InternalTransactionBody : Type 0 where
  pub kind : TransactionType
  pub peer : Peer

pub record InternalTransaction : Type 0 where
  pub body : InternalTransactionBody
  pub signature : String

pub record InternalTransactionReceipt : Type 0 where
  pub internal_transaction : InternalTransaction
  pub accepted : Bool

unfoldable pub as_accepted : InternalTransaction → InternalTransactionReceipt
as_accepted t = record { internal_transaction = t; accepted = true }

unfoldable pub as_refused : InternalTransaction → InternalTransactionReceipt
as_refused t = record { internal_transaction = t; accepted = false }

-- block.go
pub record BlockSignature : Type 0 where
  pub validator : Bytes
  pub index : ℤ
  pub signature : String

pub record WireBlockSignature : Type 0 where
  pub index : ℤ
  pub signature : String

pub record EventBody : Type 0 where
  pub transactions : List Bytes
  pub internal_transactions : List InternalTransaction
  pub self_parent : String
  pub other_parent : String
  pub creator : Bytes
  pub index : ℤ
  pub block_signatures : List BlockSignature
  pub timestamp : ℤ
  pub creator_id : ℕ
  pub other_parent_creator_id : ℕ
  pub self_parent_index : ℤ
  pub other_parent_index : ℤ

pub record EventCoordinates : Type 0 where
  pub hash : String
  pub index : ℤ

abbrev pub CoordinatesMap : Type 0
CoordinatesMap = GoMap String EventCoordinates

pub record Event : Type 0 where
  pub body : EventBody
  pub signature : String
  pub topological_index : ℤ
  pub round : Option ℤ
  pub lamport_timestamp : Option ℤ
  pub round_received : Option ℤ
  pub last_ancestors : CoordinatesMap
  pub first_descendants : CoordinatesMap

-- what an event is before it is inserted
abbrev pub bare_event : EventBody → String → Event
bare_event body signature = record {
  body = body;
  signature = signature;
  topological_index = pos 0;
  round = none;
  lamport_timestamp = none;
  round_received = none;
  last_ancestors = [];
  first_descendants = [];
}

-- NewEvent, at the time `now`
unfoldable pub new_event :
    List Bytes
    → List InternalTransaction
    → List BlockSignature
    → String
    → String
    → Bytes
    → ℤ
    → ℤ
    → Event
new_event transactions itxs sigs self_parent other_parent creator index now =
    bare_event
      (record {
        transactions = transactions;
        internal_transactions = itxs;
        self_parent = self_parent;
        other_parent = other_parent;
        creator = creator;
        index = index;
        block_signatures = sigs;
        timestamp = now;
        creator_id = 0;
        other_parent_creator_id = 0;
        self_parent_index = pos 0;
        other_parent_index = pos 0;
      })
      ""

-- the payload, or the first event of its creator
unfoldable pub is_loaded : Event → Bool
is_loaded e =
    if eqb_ℤ e.body.index (pos 0)
    then true
    else ltb 0 (length e.body.transactions) || ltb 0 (length e.body.internal_transactions)

unfoldable pub creator : ⦃platform : Platform⦄ → Event → String
creator ⦃platform⦄ e = platform.encode_hex e.body.creator

unfoldable pub set_round : Event → ℤ → Event
set_round e r = record e { round = some r }

unfoldable pub set_lamport_timestamp : Event → ℤ → Event
set_lamport_timestamp e t = record e { lamport_timestamp = some t }

unfoldable pub set_round_received : Event → ℤ → Event
set_round_received e rr = record e { round_received = some rr }

-- Event.SetWireInfo
unfoldable pub set_wire_fields : Event → ℤ → ℕ → ℤ → ℕ → Event
set_wire_fields e self_parent_index other_parent_creator_id other_parent_index creator_id =
    record e {
      body = record (e.body) {
        self_parent_index = self_parent_index;
        other_parent_creator_id = other_parent_creator_id;
        other_parent_index = other_parent_index;
        creator_id = creator_id;
      };
    }

pub record WireBody : Type 0 where
  pub transactions : List Bytes
  pub internal_transactions : List InternalTransaction
  pub block_signatures : List WireBlockSignature
  pub creator_id : ℕ
  pub other_parent_creator_id : ℕ
  pub index : ℤ
  pub self_parent_index : ℤ
  pub other_parent_index : ℤ
  pub timestamp : ℤ

pub record WireEvent : Type 0 where
  pub body : WireBody
  pub signature : String

-- BlockSignature.ToWire
unfoldable pub signature_to_wire : BlockSignature → WireBlockSignature
signature_to_wire bs = record { index = bs.index; signature = bs.signature }

unfoldable pub wire_block_signatures : Event → List WireBlockSignature
wire_block_signatures e = map signature_to_wire e.body.block_signatures

unfoldable pub to_wire : Event → WireEvent
to_wire e = record {
  body = record {
    transactions = e.body.transactions;
    internal_transactions = e.body.internal_transactions;
    block_signatures = wire_block_signatures e;
    creator_id = e.body.creator_id;
    other_parent_creator_id = e.body.other_parent_creator_id;
    index = e.body.index;
    self_parent_index = e.body.self_parent_index;
    other_parent_index = e.body.other_parent_index;
    timestamp = e.body.timestamp;
  };
  signature = e.signature;
}

-- WireEvent.BlockSignatures
unfoldable pub unpack_block_signatures : WireEvent → Bytes → List BlockSignature
unpack_block_signatures we validator =
    map (λ bs. record { validator = validator; index = bs.index; signature = bs.signature })
      we.body.block_signatures

pub record FrameEvent : Type 0 where
  pub core : Event
  pub frame_round : ℤ
  pub timestamp : ℤ
  pub witness : Bool

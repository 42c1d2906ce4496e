-- ===== src/Hashgraph/Block.antt =====
-- src/hashgraph/block.go: blocks and their signatures. `Hash` and `Hex` of a block, and its field
-- `peerSet`, are not used by the modelled code. The map of signatures is in the order of `range`.
pub mod Signatures
pub mod Tests
use babble.Base.{
  ℕ, ℤ, String, List, [], ◌∷◌, ◌++◌, map, GoMap, insert, lookup, Option, none, some, Bool,
  string_key,
}
use babble.Common.Errors.{Result, ok, err, panic, message, or_err, ◌>>=◌}
use babble.Common.Platform.{Platform, Bytes}
use babble.Peers.Peer.{Peer, pub_key_bytes}
use babble.Peers.PeerSet.{PeerSet, new_peer_set}
use babble.Hashgraph.Event.{Event, FrameEvent, BlockSignature, InternalTransaction}
use babble.Hashgraph.SigPool.{validator_hex}
use babble.Hashgraph.Frame.{Frame, BlockBody}
use babble.Hashgraph.Crypto.{Crypto}

pub record Block : Type 0 where
  pub body : BlockBody
  pub signatures : GoMap String String

abbrev pub frame_transactions : List FrameEvent → List Bytes
frame_transactions [] = []
frame_transactions (e ∷ es) = e.core.body.transactions ++ frame_transactions es

abbrev pub frame_internal_transactions : List FrameEvent → List InternalTransaction
frame_internal_transactions [] = []
frame_internal_transactions (e ∷ es) =
    e.core.body.internal_transactions ++ frame_internal_transactions es

module _ ⦃platform : Platform⦄ ⦃crypto : Crypto⦄ where
  -- the loop of PeerSet.Hash, with SimpleHashFromTwoHashes
  hash_keys : Bytes → List Peer → Bytes
  hash_keys hash [] = hash
  hash_keys hash (p ∷ ps) = hash_keys (crypto.sha256 (hash ++ pub_key_bytes p)) ps

  -- PeerSet.Hash
  unfoldable pub peers_hash : PeerSet → Bytes
  unfolding hash_keys
  peers_hash ps = hash_keys [] ps.peers

  unfoldable pub new_block :
      ℤ → ℤ → Bytes → List Peer → List Bytes → List InternalTransaction → ℤ → Block
  new_block index round_received frame_hash peers txs itxs timestamp = record {
    body = record {
      index = index;
      round_received = round_received;
      timestamp = timestamp;
      state_hash = [];
      frame_hash = frame_hash;
      peers_hash = peers_hash (new_peer_set peers);
      transactions = txs;
      internal_transactions = itxs;
      receipts = [];
    };
    signatures = [];
  }

  unfoldable pub new_block_from_frame : ℤ → Frame → Block
  unfolding new_block
  new_block_from_frame index frame =
      new_block index frame.round (crypto.sha256 (crypto.frame_json frame)) frame.peers
        (frame_transactions frame.events) (frame_internal_transactions frame.events) frame.timestamp

  unfoldable pub get_signatures : Block → List BlockSignature
  get_signatures b =
      map
        (λ e. record { validator = platform.decode_hex e.0; index = b.body.index; signature = e.1 })
        b.signatures

  unfoldable pub get_signature : Block → String → Result BlockSignature
  get_signature b validator = do
    sig ← or_err (lookup b.signatures validator) (message "signature not found")
    ok (record { validator = platform.decode_hex validator; index = b.body.index; signature = sig })

  unfoldable pub set_signature : Block → BlockSignature → Block
  set_signature b bs = record b { signatures = insert b.signatures (validator_hex bs) bs.signature }

  unfoldable pub verify_signature : Block → BlockSignature → Result Bool
  verify_signature b sig =
      crypto.check_signature sig.validator (crypto.sha256 (crypto.block_json b.body)) sig.signature

unfoldable pub append_transactions : Block → List Bytes → Block
append_transactions b txs = record b {
  body = record (b.body) { transactions = b.body.transactions ++ txs };
}

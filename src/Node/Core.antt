-- ===== src/Node/Core.antt =====
-- src/node/core.go: the object through which a node uses its hashgraph. What comes from outside is a
-- parameter, the host. The peers of a promise wait on a channel: here the answers are kept in order.
pub mod Commit
pub mod SelfEvents
pub mod FastForward
pub mod Diff
pub mod Tests
use babble.Base.{
  ◌≡◌, refl, ℕ, ℤ, pos, minus_one, String, List, [], ◌∷◌, ◌++◌, GoMap, insert, Key, length, Option,
  none, some, ltb, ltb_ℤ, ◌||◌, Bool, true, false, ℕ_discrete,
}
use mathlib.Core.List.{List-discrete}
use babble.Common.Errors.{Result}
use babble.Common.Platform.{Platform, Bytes}
use babble.Peers.Peer.{Peer}
use babble.Peers.PeerSet.{PeerSet}
use babble.Hashgraph.Event.{Event, InternalTransaction, InternalTransactionReceipt}
use babble.Hashgraph.Crypto.{Crypto}
use babble.Hashgraph.Block.{Block}
use babble.Hashgraph.SigPool.{SigPool, pool_len}
use babble.Hashgraph.InmemStore.{InmemStore}
use babble.Hashgraph.State.{Hashgraph, new_hashgraph}
use babble.Hashgraph.State.Owner.{Owner}
use babble.Hashgraph.Process.{init}
use babble.Node.PeerSelector.{Validator, validator_id, PeerSelector, new_random_peer_selector}

-- src/proxy/handlers.go
pub record CommitResponse : Type 0 where
  pub state_hash : Bytes
  pub receipts : List InternalTransactionReceipt

-- The signature of a hash by the validator's key, as a text; the application's answer to a block; and
-- the time at which the self-event with an index is made.
pub record Host : Type 0 where
  pub sign : Bytes → Result String
  pub commit_block : Block → Result CommitResponse
  pub now : ℤ → ℤ

-- promise.go, joinPromiseResponse
pub record JoinPromiseResponse : Type 0 where
  pub accepted : Bool
  pub accepted_round : ℤ
  pub peers : List Peer

instance abbrev pub bytes_key : Key Bytes
bytes_key = record { dec = List-discrete ℕ_discrete }

pub record Core : Type 0 where
  pub validator : Validator
  pub hashgraph : Hashgraph
  pub genesis_peers : PeerSet
  pub validators : PeerSet
  pub peers : PeerSet
  pub peer_selector : PeerSelector
  pub head : String
  pub seq : ℤ
  pub accepted_round : ℤ
  pub removed_round : ℤ
  pub target_round : ℤ
  pub last_peer_change_round : ℤ
  pub heads : GoMap ℕ (Option Event)
  pub transaction_pool : List Bytes
  pub internal_transaction_pool : List InternalTransaction
  pub self_block_signatures : SigPool
  pub maintenance_mode : Bool
  pub promises : GoMap Bytes InternalTransaction
  pub answers : List (InternalTransaction × JoinPromiseResponse)

instance abbrev pub core_owner : Owner Core
core_owner = record {
  hashgraph_of = λ c. c.hashgraph;
  with_hashgraph = λ c h. record c { hashgraph = h };
  holds = λ c h. refl;
}

-- busy, of a core that has processed rounds up to one, or none
abbrev pub is_behind : Option ℤ → ℤ → Bool
is_behind none target = false
is_behind (some last) target = ltb_ℤ last target

unfoldable pub busy : Core → Bool
busy c =
    ltb_ℤ (pos 0) c.hashgraph.pending_loaded_events
    || ltb 0 (length c.transaction_pool)
    || ltb 0 (length c.internal_transaction_pool)
    || ltb 0 (pool_len c.self_block_signatures)
    || is_behind c.hashgraph.last_consensus_round c.target_round

unfoldable pub add_transactions : List Bytes → Core → Core
add_transactions txs c = record c { transaction_pool = c.transaction_pool ++ txs }

module _ ⦃platform : Platform⦄ where
  unfoldable pub set_peers : PeerSet → Core → Core
  set_peers ps c = record c {
    peers = ps;
    peer_selector = new_random_peer_selector ps (validator_id c.validator);
  }

module _ ⦃platform : Platform⦄ ⦃crypto : Crypto⦄ where
  -- InternalTransaction.HashString
  unfoldable pub hash_string : InternalTransaction → Bytes
  hash_string itx = crypto.sha256 (crypto.itx_json itx.body)

  unfoldable pub add_internal_transaction : InternalTransaction → Core → Core
  add_internal_transaction itx c = record c {
    promises = insert c.promises (hash_string itx) itx;
    internal_transaction_pool = c.internal_transaction_pool ++ itx ∷ [];
  }

  -- newCore, which ignores the error of Init
  unfoldable pub new_core : Validator → PeerSet → PeerSet → InmemStore → Bool → Core
  new_core validator peers genesis_peers store maintenance_mode = record {
    validator = validator;
    hashgraph = (init genesis_peers (new_hashgraph store)).1;
    genesis_peers = genesis_peers;
    validators = genesis_peers;
    peers = peers;
    peer_selector = new_random_peer_selector peers (validator_id validator);
    head = "";
    seq = minus_one;
    accepted_round = minus_one;
    removed_round = minus_one;
    target_round = minus_one;
    last_peer_change_round = minus_one;
    heads = [];
    transaction_pool = [];
    internal_transaction_pool = [];
    self_block_signatures = [];
    maintenance_mode = maintenance_mode;
    promises = [];
    answers = [];
  }

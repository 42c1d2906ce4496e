-- ===== src/Node/Core/Commit.antt =====
-- src/node/core.go, commit, signBlock and processAcceptedInternalTransactions. The block that is
-- committed is the one that the store has cached, so a change of it is one of the cache.
pub mod Onward
pub mod Answers
use babble.Base.{
  ℕ, ℤ, pos, ◌+ℤ◌, List, [], ◌∷◌, ◌++◌, String, lookup, delete, is_some, Option, none, some, ltb_ℤ,
  if◌then◌else◌, ◌==◌, Bool, true, false, int_key, nat_key,
}
use babble.Common.Errors.{Result, ok, err, panic}
use babble.Common.Exec.{Exec, pure, fail, lift, gets, attempt, modify, ◌>>=◌, ◌>>◌}
use babble.Common.Lru
use babble.Common.Platform.{Platform}
use babble.Peers.Peer.{peer_id}
use babble.Peers.PeerSet.{PeerSet, with_new_peer, with_removed_peer}
use babble.Hashgraph.Event.{
  TransactionType, peer_add, peer_remove, unknown, BlockSignature, InternalTransactionReceipt,
}
use babble.Hashgraph.Crypto.{Crypto}
use babble.Hashgraph.SigPool.{add_sig}
use babble.Hashgraph.Block.{Block, set_signature}
use babble.Hashgraph.InmemStore.{InmemStore, set_block, store_peer_set}
use babble.Hashgraph.State.{Hashgraph, on_store}
use babble.Hashgraph.State.Owner.{on_hashgraph}
use babble.Hashgraph.Anchor.{peer_set_of, set_anchor_block}
use babble.Hashgraph.Insert.{renamed}
use babble.Node.PeerSelector.{validator_id}
use babble.Node.Core.{
  CommitResponse, Host, Core, core_owner, bytes_key, hash_string, set_peers, JoinPromiseResponse,
}

-- a write to a cached block through its pointer
abbrev pub write_block : Block → Core → Core
write_block b c = record c {
  hashgraph = record (c.hashgraph) {
    store = record (c.hashgraph.store) {
      block_cache = Lru.overwrite c.hashgraph.store.block_cache b.body.index b;
    };
  };
}

-- what a list of receipts makes of the peers
pub record Changes : Type 0 where
  pub validators : PeerSet
  pub current_peers : PeerSet
  pub removed_round : ℤ
  pub changed : Bool

abbrev pub note_change : ℤ → Core → Core
note_change effective c = record c { last_peer_change_round = effective }

abbrev pub note_removal : Changes → Core → Core
note_removal ch c = record c { removed_round = ch.removed_round }

abbrev pub signature_of : Block → String → Core → BlockSignature
signature_of b signature c = record {
  validator = c.validator.public_key;
  index = b.body.index;
  signature = signature;
}

-- the delay of a change of the peers, in rounds
abbrev pub effective_round : ℤ → ℤ
effective_round round_received = round_received +ℤ pos 6

module _ ⦃platform : Platform⦄ ⦃crypto : Crypto⦄ where
  abbrev pub by_kind : TransactionType → ℕ → ℤ → InternalTransactionReceipt → Changes → Changes
  by_kind peer_add self_id effective r ch = record ch {
    validators = with_new_peer ch.validators r.internal_transaction.body.peer;
    current_peers = with_new_peer ch.current_peers r.internal_transaction.body.peer;
    changed = true;
  }
  by_kind peer_remove self_id effective r ch = record ch {
    validators = with_removed_peer ch.validators r.internal_transaction.body.peer;
    current_peers = with_removed_peer ch.current_peers r.internal_transaction.body.peer;
    removed_round =
        if peer_id r.internal_transaction.body.peer == self_id then effective else ch.removed_round;
    changed = true;
  }
  by_kind (unknown n) self_id effective r ch = ch

  abbrev pub apply_receipt : ℕ → ℤ → InternalTransactionReceipt → Changes → Changes
  apply_receipt self_id effective r ch =
      if r.accepted then by_kind r.internal_transaction.body.kind self_id effective r ch else ch

  -- the first loop of processAcceptedInternalTransactions
  abbrev pub apply_receipts : ℕ → ℤ → List InternalTransactionReceipt → Changes → Changes
  apply_receipts self_id effective [] ch = ch
  apply_receipts self_id effective (r ∷ rs) ch =
      apply_receipts self_id effective rs (apply_receipt self_id effective r ch)

  abbrev pub changes_of : ℤ → List InternalTransactionReceipt → Core → Changes
  changes_of effective receipts c =
      apply_receipts (validator_id c.validator) effective receipts (record {
        validators = c.validators;
        current_peers = c.peers;
        removed_round = c.removed_round;
        changed = false;
      })

  -- the core with the new peers, once they are in the store
  abbrev pub adopted : ℤ → Changes → Core → Core
  adopted effective ch c = record (set_peers ch.current_peers c) {
    validators = ch.validators;
    target_round = if ltb_ℤ c.target_round effective then effective else c.target_round;
  }

  abbrev pub adopt_if : Bool → ℤ → Changes → Exec Core (Unit {0})
  adopt_if false effective ch = pure tt
  adopt_if true effective ch = do
    modify (note_change effective)
    r ← on_hashgraph (attempt (on_store (store_peer_set effective ch.validators)))
    on_hashgraph (renamed "Updating Store PeerSet" r)
    modify (adopted effective ch)

  abbrev pub answer_of : ℤ → Bool → Core → JoinPromiseResponse
  answer_of effective true c = record {
    accepted = true;
    accepted_round = effective;
    peers = c.validators.peers;
  }
  answer_of effective false c = record { accepted = false; accepted_round = pos 0; peers = [] }

  -- one turn of the second loop
  abbrev pub respond : ℤ → InternalTransactionReceipt → Core → Core
  respond effective r c = elim (lookup c.promises (hash_string r.internal_transaction)) [
    | none ↦ c
    | some itx ↦ record c {
      answers = c.answers ++ (itx, answer_of effective r.accepted c) ∷ [];
      promises = delete c.promises (hash_string r.internal_transaction);
    }
  ]

  abbrev pub respond_to : ℤ → List InternalTransactionReceipt → Core → Core
  respond_to effective [] c = c
  respond_to effective (r ∷ rs) c = respond_to effective rs (respond effective r c)

  unfoldable pub process_accepted_internal_transactions :
      ℤ → List InternalTransactionReceipt → Exec Core (Unit {0})
  process_accepted_internal_transactions round_received receipts = do
    ch ← gets (changes_of (effective_round round_received) receipts)
    modify (note_removal ch)
    adopt_if ch.changed (effective_round round_received) ch
    modify (respond_to (effective_round round_received) receipts)

  abbrev pub keep_signature : BlockSignature → Core → Core
  keep_signature sig c = record c { self_block_signatures = add_sig c.self_block_signatures sig }

  module _ (host : Host) where
    -- the block's signature, and the block with it
    unfoldable pub sign_block : Block → Exec Core (BlockSignature × Block)
    sign_block b = do
      signature ← lift (host.sign (crypto.sha256 (crypto.block_json b.body)))
      sig ← gets (signature_of b signature)
      modify (write_block (set_signature b sig))
      on_hashgraph (on_store (set_block (set_signature b sig)))
      pure (sig, set_signature b sig)

    abbrev pub sign_if : Bool → Block → Exec Core Block
    sign_if false b = pure b
    sign_if true b = do signed ← sign_block b; modify (keep_signature signed.0); pure signed.1

    abbrev pub with_response : Block → CommitResponse → Block
    with_response b response = record b {
      body = record (b.body) { state_hash = response.state_hash; receipts = response.receipts };
    }

    abbrev pub accept_response : Block → CommitResponse → Exec Core (Unit {0})
    accept_response b response = do
      modify (write_block (with_response b response))
      ps ← on_hashgraph (λ h. (peer_set_of b h, h))
      belongs ← gets (λ (c : Core). is_some (lookup ps.by_id (validator_id c.validator)))
      signed ← sign_if belongs (with_response b response)
      on_hashgraph (set_anchor_block signed)
      process_accepted_internal_transactions b.body.round_received response.receipts

    unfoldable pub commit : Block → Exec Core (Unit {0})
    commit b = do response ← lift (host.commit_block b); accept_response b response

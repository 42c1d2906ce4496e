-- ===== src/Node/Core/Commit/Onward.antt =====
-- The commit callback of the core does what the hashgraph asks of a callback, whatever the
-- application answers.
use babble.Base.{
  ◌≡◌, refl, ap, ◌∙◌, inl, inr, ℕ, ℤ, List, [], ◌∷◌, Bool, true, false, Option-cases, is_some,
  lookup, nat_key,
}
use babble.Common.Errors.{Result}
use babble.Common.Exec.{Exec, pure, lift, gets, attempt, modify, ◌>>=◌}
use babble.Common.Exec.Steps.{Whatever, whatever, Steps, bind-Moves, pure-Steps, continue-Steps}
use babble.Common.Platform.{Platform}
use babble.Hashgraph.Event.{Event, InternalTransactionReceipt}
use babble.Hashgraph.Crypto.{Crypto}
use babble.Hashgraph.Block.{Block, set_signature}
use babble.Hashgraph.InmemStore.{set_block, store_peer_set}
use babble.Hashgraph.State.{Hashgraph, on_store}
use babble.Hashgraph.State.Owner.{on_hashgraph, owned, on_hashgraph-Steps}
use babble.Hashgraph.State.Quiet.{IsQuiet, read-IsQuiet, on_store-IsQuiet, attempt-IsQuiet}
use babble.Hashgraph.Frames.Quiet.{renamed-IsQuiet}
use babble.Hashgraph.Insert.{renamed}
use babble.Hashgraph.Anchor.{peer_set_of, next_anchor, set_anchor_block}
use babble.Hashgraph.Process.Onward.{Onward-refl, onward, same-Onward, quiet-Onward}
use babble.Hashgraph.Process.Pipeline.{insert_event_and_run_consensus-Steps}
use babble.Hashgraph.Process.{insert_event_and_run_consensus}
use babble.Node.PeerSelector.{validator_id}
use babble.Node.Core.{CommitResponse, Host, Core, core_owner, bytes_key, hash_string, set_peers}
use babble.Node.Core.Commit.{
  write_block, Changes, note_change, note_removal, keep_signature, signature_of, effective_round,
  changes_of, adopted, adopt_if, respond, respond_to, process_accepted_internal_transactions,
  sign_block, sign_if, with_response, accept_response, commit,
}

-- what the hashgraph asks of a method of the core
unfoldable pub IsOnward : {A : Type 0} → Exec Core A → Type 0
IsOnward m = Steps {S = Core} (owned onward) Whatever m

pub bind-IsOnward :
    {A B : Type 0} (m : Exec Core A) (f : A → Exec Core B)
    → IsOnward m
    → ((a : A) → IsOnward (f a))
    → IsOnward (m >>= f)
unfolding IsOnward
bind-IsOnward m f t u = bind-Moves (owned onward) Whatever m f t u

pub pure-IsOnward : {A : Type 0} (a : A) → IsOnward (pure a)
unfolding IsOnward
pure-IsOnward a = pure-Steps (owned onward) Whatever a tt

pub calm-IsOnward : {A : Type 0} (m : Exec Hashgraph A) → IsQuiet m → IsOnward (on_hashgraph m)
unfolding IsOnward
calm-IsOnward m q = on_hashgraph-Steps onward Whatever m (quiet-Onward m q)

-- a step of the core that leaves the hashgraph, or changes only its caches
pub beside-Onward :
    (f : Core → Core)
    → ((c : Core)
        → ((f c).hashgraph.last_consensus_round ≡ c.hashgraph.last_consensus_round)
          × ((f c).hashgraph.pending_rounds ≡ c.hashgraph.pending_rounds))
    → IsOnward (modify f)
unfolding IsOnward
beside-Onward f same c = (same-Onward c.hashgraph (f c).hashgraph (same c).0 (same c).1, tt)

pub gets-Onward : {A : Type 0} (f : Core → A) → IsOnward (gets f)
unfolding IsOnward
gets-Onward f c = (Onward-refl c.hashgraph, tt)

pub lift-Onward : {A : Type 0} (r : Result A) → IsOnward (lift r)
unfolding IsOnward
lift-Onward r c = (Onward-refl c.hashgraph, whatever r)

set_anchor_block-Onward : (b : Block) → Steps onward Whatever (set_anchor_block b)
unfolding set_anchor_block
set_anchor_block-Onward b h =
    continue-Steps onward Whatever Whatever (peer_set_of b h)
      (λ ps.
        modify (λ (g : Hashgraph). record g { anchor_block = next_anchor g.anchor_block b ps }))
      (whatever (peer_set_of b h)) (λ ps _ g. (same-Onward g _ refl refl, tt)) h

anchored-IsOnward : (b : Block) → IsOnward (on_hashgraph (set_anchor_block b))
unfolding IsOnward
anchored-IsOnward b =
    on_hashgraph-Steps onward Whatever (set_anchor_block b) (set_anchor_block-Onward b)

write_block-Onward : (b : Block) → IsOnward (modify (write_block b))
write_block-Onward b = beside-Onward (write_block b) (λ c. (refl, refl))

module _ ⦃platform : Platform⦄ ⦃crypto : Crypto⦄ where
  respond-hashgraph :
      (effective : ℤ) (r : InternalTransactionReceipt) (c : Core)
      → (respond effective r c).hashgraph ≡ c.hashgraph
  respond-hashgraph effective r c =
      elim (Option-cases (lookup c.promises (hash_string r.internal_transaction))) [
        | inl e ↦ rw (respond, e) refl
        | inr (itx, e) ↦ rw (respond, e) refl
      ]

  respond_to-hashgraph :
      (effective : ℤ) (rs : List InternalTransactionReceipt) (c : Core)
      → (respond_to effective rs c).hashgraph ≡ c.hashgraph
  respond_to-hashgraph effective [] c = refl
  respond_to-hashgraph effective (r ∷ rs) c =
      respond_to-hashgraph effective rs (respond effective r c) ∙ respond-hashgraph effective r c

  respond_to-Onward :
      (effective : ℤ) (rs : List InternalTransactionReceipt)
      → IsOnward (modify (respond_to effective rs))
  respond_to-Onward effective rs = beside-Onward (respond_to effective rs) (λ c. (
    ap (λ (h : Hashgraph). h.last_consensus_round) (respond_to-hashgraph effective rs c),
    ap (λ (h : Hashgraph). h.pending_rounds) (respond_to-hashgraph effective rs c),
  ))

  adopt_if-Onward : (b : Bool) (effective : ℤ) (ch : Changes) → IsOnward (adopt_if b effective ch)
  unfolding set_peers
  adopt_if-Onward false effective ch = pure-IsOnward tt
  adopt_if-Onward true effective ch =
      bind-IsOnward (modify (note_change effective)) _
        (beside-Onward (note_change effective) (λ c. (refl, refl)))
        (λ _.
          bind-IsOnward (on_hashgraph (attempt (on_store (store_peer_set effective ch.validators))))
            _
            (calm-IsOnward (attempt (on_store (store_peer_set effective ch.validators))) (
              attempt-IsQuiet (on_store (store_peer_set effective ch.validators))
                (on_store-IsQuiet (store_peer_set effective ch.validators))))
            (λ r.
              bind-IsOnward (on_hashgraph (renamed "Updating Store PeerSet" r))
                (λ _. modify (adopted effective ch))
                (calm-IsOnward (renamed "Updating Store PeerSet" r)
                  (renamed-IsQuiet "Updating Store PeerSet" r))
                (λ _. beside-Onward (adopted effective ch) (λ c. (refl, refl)))))

  process_accepted-Onward :
      (round_received : ℤ) (receipts : List InternalTransactionReceipt)
      → IsOnward (process_accepted_internal_transactions round_received receipts)
  unfolding process_accepted_internal_transactions
  process_accepted-Onward round_received receipts =
      let effective = effective_round round_received in
      bind-IsOnward (gets (changes_of effective receipts)) _
        (gets-Onward (changes_of effective receipts))
        (λ ch.
          bind-IsOnward (modify (note_removal ch)) _
            (beside-Onward (note_removal ch) (λ c. (refl, refl)))
            (λ _.
              bind-IsOnward (adopt_if ch.changed effective ch)
                (λ _. modify (respond_to effective receipts))
                (adopt_if-Onward ch.changed effective ch)
                (λ _. respond_to-Onward effective receipts)))

  module _ (host : Host) where
    sign_block-Onward : (b : Block) → IsOnward (sign_block host b)
    unfolding sign_block
    sign_block-Onward b =
        bind-IsOnward (lift (host.sign (crypto.sha256 (crypto.block_json b.body)))) _
          (lift-Onward (host.sign (crypto.sha256 (crypto.block_json b.body))))
          (λ signature.
            bind-IsOnward (gets (signature_of b signature)) _
              (gets-Onward (signature_of b signature))
              (λ sig.
                bind-IsOnward (modify (write_block (set_signature b sig))) _
                  (write_block-Onward (set_signature b sig))
                  (λ _.
                    bind-IsOnward (on_hashgraph (on_store (set_block (set_signature b sig)))) _
                      (calm-IsOnward (on_store (set_block (set_signature b sig)))
                        (on_store-IsQuiet (set_block (set_signature b sig))))
                      (λ _. pure-IsOnward (sig, set_signature b sig)))))

    sign_if-Onward : (belongs : Bool) (b : Block) → IsOnward (sign_if host belongs b)
    sign_if-Onward false b = pure-IsOnward b
    sign_if-Onward true b = bind-IsOnward (sign_block host b) _ (sign_block-Onward b) (λ signed.
        bind-IsOnward (modify (keep_signature signed.0)) _
          (beside-Onward (keep_signature signed.0) (λ c. (refl, refl)))
          (λ _. pure-IsOnward signed.1))

    accept_response-Onward :
        (b : Block) (response : CommitResponse) → IsOnward (accept_response host b response)
    accept_response-Onward b response =
        bind-IsOnward (modify (write_block (with_response host b response))) _
          (write_block-Onward (with_response host b response))
          (λ _.
            bind-IsOnward (on_hashgraph (λ h. (peer_set_of b h, h))) _
              (calm-IsOnward (λ h. (peer_set_of b h, h)) (read-IsQuiet (peer_set_of b)))
              (λ ps.
                bind-IsOnward
                  (gets (λ (c : Core). is_some (lookup ps.by_id (validator_id c.validator)))) _
                  (gets-Onward _)
                  (λ belongs.
                    bind-IsOnward (sign_if host belongs (with_response host b response)) _
                      (sign_if-Onward belongs (with_response host b response))
                      (λ signed.
                        bind-IsOnward (on_hashgraph (set_anchor_block signed)) _
                          (anchored-IsOnward signed)
                          (λ _. process_accepted-Onward b.body.round_received response.receipts)))))

    commit-Onward : (b : Block) → IsOnward (commit host b)
    unfolding commit
    commit-Onward b =
        bind-IsOnward (lift (host.commit_block b)) _ (lift-Onward (host.commit_block b))
          (accept_response-Onward b)

    commit-Steps : (b : Block) → Steps {S = Core} (owned onward) Whatever (commit host b)
    unfolding IsOnward
    commit-Steps b = commit-Onward b

    pub insert_event_and_run_consensus-IsOnward :
        (n : ℕ) (event : Event) (wire_info : Bool)
        → IsOnward (insert_event_and_run_consensus (commit host) n event wire_info)
    unfolding IsOnward
    insert_event_and_run_consensus-IsOnward n event wire_info =
        insert_event_and_run_consensus-Steps (commit host) n event wire_info commit-Steps

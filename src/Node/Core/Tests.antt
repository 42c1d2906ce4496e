-- ===== src/Node/Core/Tests.antt =====
-- Runs of the core: one that knows one peer, with two pending rounds.
use babble.Base.{
  ◌≡◌, refl, pos, minus_one, List, [], ◌∷◌, ◌++◌, select, lookup, is_some, if◌then◌else◌, true,
  false, none,
}
use babble.Common.Errors.{ok, err, message}
use babble.Common.Platform.Sample.{sample_platform}
use babble.Hashgraph.PendingRounds.Order.{IsOrdered}
use babble.Hashgraph.Anchor.Signed.{NotBelow}
use babble.Hashgraph.Process.Tests.{two_rounds, two_rounds-IsOrdered}
use babble.Hashgraph.Sample.{sample_crypto, only_alice, bob, with_events}
use babble.Node.PeerSelector.{new_random_peer_selector}
use babble.Node.Core.{Host, Core, bytes_key, hash_string}
use babble.Node.Core.Commit.{respond_to}
use babble.Node.Core.Commit.Answers.{respond_to-answered, IsKeyed, first_receipt, answers_to, reply}
use babble.Node.Core.Diff.{event_diff}
use babble.Node.Core.Diff.Delivered.{Delivers, missing_events, event_diff-Delivers}
use babble.Hashgraph.Event.{InternalTransaction, InternalTransactionReceipt, peer_add}
use babble.Hashgraph.InmemStore.{InmemStore}
use babble.Node.Core.SelfEvents.{sync}
use babble.Node.Core.SelfEvents.Onward.{sync-Onward}

abbrev sample_host : Host
sample_host = record {
  sign = λ _. ok "sig";
  commit_block = λ _. err (message "no application");
  now = λ i. i;
}

abbrev sample_core : Core
sample_core = record {
  validator = record { moniker = "alice"; public_key = 1 ∷ [] };
  hashgraph = two_rounds;
  genesis_peers = only_alice;
  validators = only_alice;
  peers = only_alice;
  peer_selector = new_random_peer_selector only_alice 1;
  head = "0X01";
  seq = pos 1;
  accepted_round = minus_one;
  removed_round = minus_one;
  target_round = minus_one;
  last_peer_change_round = minus_one;
  heads = [];
  transaction_pool = (7 ∷ []) ∷ [];
  internal_transaction_pool = [];
  self_block_signatures = [];
  maintenance_mode = false;
  promises = [];
  answers = [];
}

sync-Onward_example :
    NotBelow sample_core.hashgraph.last_consensus_round
      (sync sample_host 2 2 [] sample_core).1.hashgraph.last_consensus_round
    × IsOrdered (sync sample_host 2 2 [] sample_core).1.hashgraph.pending_rounds
sync-Onward_example = sync-Onward sample_host 2 2 [] sample_core two_rounds-IsOrdered

abbrev join_request : InternalTransaction
join_request = record { body = record { kind = peer_add; peer = bob }; signature = "sig" }

abbrev waiting_core : Core
waiting_core = record sample_core { promises = ([], join_request) ∷ [] }

waiting_core-IsKeyed : IsKeyed waiting_core.promises
unfolding hash_string
waiting_core-IsKeyed = (refl, tt)

abbrev join_receipts : List InternalTransactionReceipt
join_receipts = record { internal_transaction = join_request; accepted = true } ∷ []

respond_to-answered_example :
    (select (answers_to []) (respond_to (pos 6) join_receipts waiting_core).answers
      ≡ select (answers_to []) waiting_core.answers
        ++ reply
            (pos 6)
            waiting_core.validators.peers
            (lookup waiting_core.promises [])
            (first_receipt [] join_receipts))
    × (lookup (respond_to (pos 6) join_receipts waiting_core).promises [] ≡ (
        if is_some (first_receipt [] join_receipts) then none else lookup waiting_core.promises []))
respond_to-answered_example =
    respond_to-answered (pos 6) join_receipts waiting_core waiting_core-IsKeyed []

abbrev known_store : InmemStore
known_store = with_events ("0X01" ∷ "0X02" ∷ []) 1

event_diff-Delivers_example : Delivers (missing_events [] known_store) (event_diff [] known_store).0
event_diff-Delivers_example = event_diff-Delivers [] known_store

-- ===== src/Hashgraph/Process/Tests.antt =====
-- Runs of the rounds that are processed.
use babble.Base.{
  ◌≡◌, refl, none, if◌then◌else◌, ℤ, pos, [], ◌∷◌, List, true, false, lookup, ℤ_discrete,
  ℕ_discrete, int_key,
}
use babble.Common.Exec.{Exec, pure}
use babble.Common.Exec.Steps.{Whatever, Steps, pure-Steps}
use babble.Common.Platform.Sample.{sample_platform}
use babble.Hashgraph.Event.{Event, bare_event}
use babble.Hashgraph.Block.{Block}
use babble.Hashgraph.PendingRounds.{PendingRound, ordered_pending_rounds}
use babble.Hashgraph.PendingRounds.Order.{IsOrdered}
use babble.Hashgraph.Anchor.Signed.{NotBelow}
use babble.Hashgraph.State.{Hashgraph, new_hashgraph}
use babble.Hashgraph.State.Owner.{alone}
use babble.Hashgraph.Process.{process_round, process_decided_rounds, insert_event_and_run_consensus}
use babble.Hashgraph.Process.Onward.{onward}
use babble.Hashgraph.Process.Turns.{decided_prefix, Processed, Ran}
use babble.Hashgraph.PendingRounds.Replay.{contains}
use babble.Hashgraph.Process.Order.{process_decided_rounds-Processed}
use babble.Hashgraph.Process.Pipeline.{insert_event_and_run_consensus-Onward}
use babble.Hashgraph.Sample.{sample_crypto, with_events, event_body}

abbrev decided_round : PendingRound
decided_round = record { index = pos 0; decided = true }

abbrev open_round : PendingRound
open_round = record { index = pos 1; decided = false }

abbrev pub two_rounds : Hashgraph
two_rounds = record (new_hashgraph (with_events ("0X01" ∷ []) 0)) {
  pending_rounds = record {
    items = (pos 0, decided_round) ∷ (pos 1, open_round) ∷ [];
    sorted_items = decided_round ∷ open_round ∷ [];
  };
}

pub two_rounds-IsOrdered : IsOrdered two_rounds.pending_rounds
unfolding new_hashgraph lookup ℤ_discrete ℕ_discrete
two_rounds-IsOrdered = record {
  coherent = refl;
  keyed = (refl, (refl, tt));
  distinct = (refl, (refl, tt));
}

abbrev event_after_1 : Event
event_after_1 = bare_event (event_body 2 "0X01") "sig"

abbrev no_commit : Block → Exec Hashgraph (Unit {0})
no_commit b = pure tt

no_commit-Onward : (b : Block) → Steps onward Whatever (no_commit b)
no_commit-Onward b = pure-Steps onward Whatever tt tt

first_decided : decided_prefix (decided_round ∷ open_round ∷ []) ≡ pos 0 ∷ []
first_decided = refl

process_decided_rounds-Processed_example :
    (done : List ℤ) × (t : Hashgraph) × Ran
      (process_round no_commit 1)
      (decided_prefix (ordered_pending_rounds two_rounds.pending_rounds))
      two_rounds
      done
      (process_decided_rounds no_commit 1 two_rounds).0
      t
    × Processed
        (decided_prefix (ordered_pending_rounds two_rounds.pending_rounds))
        two_rounds
        (process_decided_rounds no_commit 1 two_rounds).0
        (process_decided_rounds no_commit 1 two_rounds).1
        done
    × IsOrdered (process_decided_rounds no_commit 1 two_rounds).1.pending_rounds
    × ((j : ℤ)
        → lookup (process_decided_rounds no_commit 1 two_rounds).1.pending_rounds.items j
          ≡ (if contains done j then none else lookup t.pending_rounds.items j))
process_decided_rounds-Processed_example =
    process_decided_rounds-Processed no_commit no_commit-Onward 1 two_rounds two_rounds-IsOrdered

insert_event_and_run_consensus-Onward_example :
    NotBelow two_rounds.last_consensus_round
      (insert_event_and_run_consensus no_commit 2 event_after_1 false
        two_rounds).1.last_consensus_round
    × IsOrdered
        (insert_event_and_run_consensus no_commit 2 event_after_1 false two_rounds).1.pending_rounds
insert_event_and_run_consensus-Onward_example =
    insert_event_and_run_consensus-Onward no_commit 2 event_after_1 false two_rounds
      no_commit-Onward two_rounds-IsOrdered

-- ===== src/Hashgraph/State/Quiet.antt =====
-- What the caches and the store do not hold: the queues, the counters and the marks of a hashgraph.
-- Most methods leave them as they are.
use babble.Base.{◌≡◌, refl, ◌∙◌, ℤ, String, List, Option}
use babble.Common.Errors.{Result, ok, err, panic}
use babble.Common.Exec.{Exec, pure, attempt, caught, continue, ◌>>=◌}
use babble.Hashgraph.PendingRounds.{PendingRoundsCache}
use babble.Hashgraph.SigPool.{SigPool}
use babble.Hashgraph.InmemStore.{InmemStore}
use babble.Hashgraph.State.{Hashgraph, on_store}

pub record Ledger : Type 0 where
  pub undetermined_events : List String
  pub pending_rounds : PendingRoundsCache
  pub pending_signatures : SigPool
  pub last_consensus_round : Option ℤ
  pub first_consensus_round : Option ℤ
  pub anchor_block : Option ℤ
  pub round_lower_bound : Option ℤ
  pub last_commited_round_events : ℤ
  pub consensus_transactions : ℤ
  pub pending_loaded_events : ℤ
  pub topological_index : ℤ

abbrev pub ledger : Hashgraph → Ledger
ledger h = record {
  undetermined_events = h.undetermined_events;
  pending_rounds = h.pending_rounds;
  pending_signatures = h.pending_signatures;
  last_consensus_round = h.last_consensus_round;
  first_consensus_round = h.first_consensus_round;
  anchor_block = h.anchor_block;
  round_lower_bound = h.round_lower_bound;
  last_commited_round_events = h.last_commited_round_events;
  consensus_transactions = h.consensus_transactions;
  pending_loaded_events = h.pending_loaded_events;
  topological_index = h.topological_index;
}

-- On every path, the method leaves the ledger as it was.
unfoldable pub IsQuiet : {A : Type 0} → Exec Hashgraph A → Type 0
IsQuiet m = (h : Hashgraph) → ledger (m h).1 ≡ ledger h

module _ {A : Type 0} where
  pub make-IsQuiet :
      (m : Exec Hashgraph A) → ((h : Hashgraph) → ledger (m h).1 ≡ ledger h) → IsQuiet m
  unfolding IsQuiet
  make-IsQuiet m t = t

  pub ledger_stays :
      (m : Exec Hashgraph A) → IsQuiet m → (h : Hashgraph) → ledger (m h).1 ≡ ledger h
  unfolding IsQuiet
  ledger_stays m t = t

  pub pure-IsQuiet : (a : A) → IsQuiet (pure a)
  unfolding IsQuiet
  pure-IsQuiet a h = refl

  -- a method that returns a value, an error or a panic and changes nothing
  pub read-IsQuiet : (f : Hashgraph → Result A) → IsQuiet (λ h. (f h, h))
  unfolding IsQuiet
  read-IsQuiet f h = refl

  pub on_store-IsQuiet : (m : Exec InmemStore A) → IsQuiet (on_store m)
  unfolding IsQuiet
  on_store-IsQuiet m h = refl

  caught-ledger :
      (r : Result A) (h g : Hashgraph) → ledger g ≡ ledger h → ledger (caught r g).1 ≡ ledger h
  caught-ledger (ok a) h g e = e
  caught-ledger (err x) h g e = e
  caught-ledger panic h g e = e

  pub attempt-IsQuiet : (m : Exec Hashgraph A) → IsQuiet m → IsQuiet (attempt m)
  unfolding IsQuiet
  attempt-IsQuiet m t h = caught-ledger (m h).0 h (m h).1 (t h)

module _ {A B : Type 0} where
  continue-ledger :
      (r : Result A) (f : A → Exec Hashgraph B) (h : Hashgraph)
      → ((a : A) → IsQuiet (f a))
      → ledger (continue r f h).1 ≡ ledger h
  unfolding IsQuiet
  continue-ledger (ok a) f h t = t a h
  continue-ledger (err x) f h t = refl
  continue-ledger panic f h t = refl

  pub bind-IsQuiet :
      (m : Exec Hashgraph A) (f : A → Exec Hashgraph B)
      → IsQuiet m
      → ((a : A) → IsQuiet (f a))
      → IsQuiet (m >>= f)
  unfolding IsQuiet
  bind-IsQuiet m f t u h = continue-ledger (m h).0 f (m h).1 u ∙ t h

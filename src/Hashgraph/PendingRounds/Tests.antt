-- ===== src/Hashgraph/PendingRounds/Tests.antt =====
-- Runs of the pending rounds.
use babble.Base.{
  ◌≡◌, refl, ℤ, pos, List, none, some, true, [], ◌∷◌, lookup, ℤ_discrete, ℕ_discrete, false,
}
use babble.Hashgraph.PendingRounds.{
  PendingRound, PendingRoundsCache, new_pending_rounds_cache, queued, set_pending,
  ordered_pending_rounds,
}
use babble.Hashgraph.PendingRounds.Order.{IsOrdered, IsIncreasing}
use babble.Hashgraph.PendingRounds.Flags.{set_pending-IsOrdered}
use babble.Hashgraph.PendingRounds.Replay.{
  Call, queue, decide, remove, after_all, flag_of, replay, after_all-replay,
}

abbrev round_3 : PendingRound
round_3 = record { index = pos 3; decided = false }

abbrev round_2 : PendingRound
round_2 = record { index = pos 2; decided = false }

abbrev two_pending : PendingRoundsCache
two_pending = record {
  items = (pos 3, round_3) ∷ (pos 2, round_2) ∷ [];
  sorted_items = round_2 ∷ round_3 ∷ [];
}

two_pending-IsOrdered : IsOrdered two_pending
unfolding lookup ℤ_discrete ℕ_discrete
two_pending-IsOrdered = record {
  coherent = refl;
  keyed = (refl, (refl, tt));
  distinct = (refl, (refl, tt));
}

free : queued two_pending (pos 1) ≡ false
unfolding queued lookup ℤ_discrete ℕ_discrete
free = refl

set_pending-IsOrdered_example :
    IsOrdered (set_pending two_pending (record { index = pos 1; decided = false }))
set_pending-IsOrdered_example =
    set_pending-IsOrdered two_pending (record { index = pos 1; decided = false })
      two_pending-IsOrdered free

abbrev calls : List Call
calls = queue round_3 ∷ queue round_2 ∷ decide (pos 3 ∷ []) ∷ remove (pos 2 ∷ []) ∷ []

after_all-replay_example :
    IsIncreasing (ordered_pending_rounds (after_all new_pending_rounds_cache calls))
    × ((j : ℤ)
        → flag_of (ordered_pending_rounds (after_all new_pending_rounds_cache calls)) j
          ≡ replay (λ _. none) calls j)
after_all-replay_example = after_all-replay calls

one_left : replay (λ _. none) calls (pos 3) ≡ some true
one_left = refl

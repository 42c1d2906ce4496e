-- ===== src/Common/Median/Tests.antt =====
-- Runs of the median.
use babble.Base.{◌≡◌, refl, ◌<◌, ◌-◌, ◌^◌, ◌*◌, pos, negsuc, count, [], ◌∷◌, ◌+ℤ◌}
use babble.Common.Median.{median, wrap_64}
use babble.Common.Median.Middle.{at_most, at_least, median_between}

median_between_example :
    (3 < 2 * count (at_most (median (pos 5 ∷ pos 1 ∷ pos 9 ∷ []))) (pos 5 ∷ pos 1 ∷ pos 9 ∷ []))
    × (3 < 2 * count (at_least (median (pos 5 ∷ pos 1 ∷ pos 9 ∷ []))) (pos 5 ∷ pos 1 ∷ pos 9 ∷ []))
median_between_example = median_between (pos 5 ∷ pos 1 ∷ pos 9 ∷ []) refl

-- the sum of two late timestamps wraps around
median_overflows : median (pos (2 ^ 62) ∷ pos (2 ^ 62) ∷ []) ≡ negsuc (2 ^ 62 - 1)
unfolding median wrap_64 ◌+ℤ◌
median_overflows = refl

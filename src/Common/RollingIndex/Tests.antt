-- ===== src/Common/RollingIndex/Tests.antt =====
-- Runs of the rolling index.
use babble.Base.{◌≡◌, refl, ℕ, pos, [], ◌∷◌, ◌+ℤ◌, ◌-ℤ◌, length, ◌≤◌, arith}
use babble.Common.Errors.{base, ok, err, new_store_err, too_late, number}
use babble.Common.RollingIndex.{RollingIndex, get_item, set_item, oldest_cached, roll}
use babble.Common.RollingIndex.Window.{IsRolling}
use babble.Common.RollingIndex.Updates.{set_item-IsRolling, length-set_item-le}
use babble.Common.RollingIndex.Reads.{get_item-set_item}

-- items 3 to 6, at its size
abbrev full : RollingIndex ℕ
full = record { name = base "test"; size = 4; last_index = pos 6; items = 30 ∷ 40 ∷ 50 ∷ 60 ∷ [] }

abbrev rolled : RollingIndex ℕ
rolled = record { name = base "test"; size = 4; last_index = pos 7; items = 50 ∷ 60 ∷ 70 ∷ [] }

abbrev full-IsRolling : IsRolling full 3
full-IsRolling = record { last = refl; fresh = λ e. ground arith }

set_full : set_item full 70 (pos 7) ≡ ok rolled
unfolding set_item roll oldest_cached ◌+ℤ◌ ◌-ℤ◌
set_full = refl

get_item-set_item_example :
    get_item rolled (pos 4) ≡ err (new_store_err (base "test") too_late (number (pos 4)))
get_item-set_item_example = get_item-set_item full 3 full-IsRolling 70 7 4 set_full

set_item-IsRolling_example : IsRolling rolled 5
set_item-IsRolling_example = set_item-IsRolling full 3 full-IsRolling 70 7 set_full

length-set_item-le_example : (length rolled.items ≤ 4) × (rolled.size ≡ 4)
length-set_item-le_example =
    length-set_item-le full 3 full-IsRolling 70 7 (omega arith) (omega arith) set_full

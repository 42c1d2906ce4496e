-- ===== src/Common/RollingIndex/Window.antt =====
-- The window that a rolling index shows: the items from the oldest cached index to the last one.
use babble.Base.{
  ℕ, ◌+◌, ◌-◌, ◌≤◌, ◌≡◌, refl, pos, negsuc, minus_one, sub_ℕ, ◌+ℤ◌, ◌-ℤ◌, pos-sub, pos-add, ltb,
  leb, [], length, get_elem?, drop, if◌then◌else◌, arith,
}
use babble.Common.Errors.{Name, ok, err, new_store_err, too_late, key_not_found, number}
use babble.Common.RollingIndex.{
  RollingIndex, get, get_item, oldest_cached, new_rolling_index, or_panic,
}

-- What holds of a rolling index whose items were set at indexes that are not negative: the window
-- starts at `first`, ends before `next`, and is empty only before the first item.
pub record IsRolling {A : Type 0} (r : RollingIndex A) (first : ℕ) : Type 0 where
  pub last : r.last_index ≡ sub_ℕ (first + length r.items) 1
  pub fresh : length r.items ≡ 0 → first ≡ 0

pub new-IsRolling :
    {A : Type 0} (n : Name) (size : ℕ) → IsRolling (new_rolling_index {A = A} n size) 0
unfolding new_rolling_index
new-IsRolling n size = record { last = refl; fresh = λ _. refl }

offset :
    (skip first : ℕ) → first ≤ skip + 1 → pos skip -ℤ pos first +ℤ pos 1 ≡ pos (skip + 1 - first)
unfolding ◌+ℤ◌ ◌-ℤ◌
offset skip first h = ground arith

module _ {A : Type 0} (r : RollingIndex A) (first : ℕ) (w : IsRolling r first) where
  pub oldest_cached_lem : oldest_cached r ≡ pos first
  unfolding oldest_cached ◌+ℤ◌ ◌-ℤ◌
  oldest_cached_lem = ground (arith, w.last)

  -- The item at an index: it is too late before the window, not found after it.
  pub get_item_lem :
      (i : ℕ)
      → get_item r (pos i) ≡ (
          if ltb i first
          then err (new_store_err r.name too_late (number (pos i)))
          else if leb (length r.items) (i - first)
          then err (new_store_err r.name key_not_found (number (pos i)))
          else or_panic (get_elem? r.items (i - first)))
  unfolding get_item
  get_item_lem i = rw (oldest_cached_lem) (ground (arith, pos-sub i first))

  pub get_item_negative :
      (i : ℕ) → get_item r (negsuc i) ≡ err (new_store_err r.name too_late (number (negsuc i)))
  unfolding get_item
  get_item_negative i = rw (oldest_cached_lem) (ground arith)

  -- `Get` from an index that is not negative: nothing past the end, an error if an item after the
  -- index was dropped, and else the items after it.
  pub get_lem :
      (skip : ℕ)
      → get r (pos skip) ≡ (
          if leb (first + length r.items) skip
          then ok []
          else if ltb (skip + 1) first
          then err (new_store_err r.name too_late (number (pos skip)))
          else ok (drop (skip + 1 - first) r.items))
  unfolding get
  get_lem skip = rw (oldest_cached_lem) (ground (arith, w.last, pos-add skip 1, offset skip first))

  -- `Get` from index -1 is the whole window, if nothing was dropped.
  pub get_all :
      get r minus_one
      ≡ (if ltb 0 first then err (new_store_err r.name too_late (number minus_one)) else ok r.items)
  unfolding get ◌+ℤ◌ ◌-ℤ◌
  get_all = rw (oldest_cached_lem) (ground (arith, w.last, w.fresh))

-- ===== src/Common/RollingIndex.antt =====
-- src/common/rolling_index.go: a cache of items in strict sequential order, which drops its
-- earlier half when it is full. The size is not negative (`make` panics on a negative one).
pub mod Window
pub mod Updates
pub mod Reads
pub mod Tests
use babble.Base.{
  ℕ, ◌/◌, List, [], ◌∷◌, ◌++◌, ℤ, pos, negsuc, minus_one, ◌+ℤ◌, ◌-ℤ◌, ltb_ℤ, leb_ℤ, leb, ltb,
  length, drop, set, get_elem?, Option, some, none, ◌&&◌, ◌||◌, if◌then◌else◌, eqb_ℤ,
}
use babble.Common.Errors.{
  Name, Label, number, Result, ok, err, panic, new_store_err, too_late, key_not_found,
  skipped_index,
}

pub record RollingIndex (A : Type 0) : Type 0 where
  pub name : Name
  pub size : ℕ
  pub last_index : ℤ
  pub items : List A

module _ {A : Type 0} where
  unfoldable pub new_rolling_index : Name → ℕ → RollingIndex A
  new_rolling_index name size = record {
    name = name;
    size = size;
    last_index = minus_one;
    items = [];
  }

  unfoldable pub get_last_window : RollingIndex A → List A × ℤ
  get_last_window r = (r.items, r.last_index)

  -- `s[start:]` and `s[i]`, which panic out of range.
  abbrev pub slice_from : List A → ℤ → Result (List A)
  slice_from xs (negsuc n) = panic
  slice_from xs (pos n) = if leb n (length xs) then ok (drop n xs) else panic

  abbrev pub or_panic : Option A → Result A
  or_panic none = panic
  or_panic (some x) = ok x

  abbrev pub at : List A → ℤ → Result A
  at xs (negsuc n) = panic
  at xs (pos n) = or_panic (get_elem? xs n)

  -- the index of the oldest item that is still cached
  unfoldable pub oldest_cached : RollingIndex A → ℤ
  oldest_cached r = r.last_index -ℤ pos (length r.items) +ℤ pos 1

  unfoldable pub get : RollingIndex A → ℤ → Result (List A)
  get r skip_index =
      if ltb_ℤ r.last_index skip_index
      then ok []
      else if ltb_ℤ (skip_index +ℤ pos 1) (oldest_cached r)
      then err (new_store_err r.name too_late (number skip_index))
      else slice_from r.items (skip_index -ℤ oldest_cached r +ℤ pos 1)

  unfoldable pub get_item : RollingIndex A → ℤ → Result A
  get_item r index =
      if ltb_ℤ index (oldest_cached r)
      then err (new_store_err r.name too_late (number index))
      else if leb_ℤ (pos (length r.items)) (index -ℤ oldest_cached r)
      then err (new_store_err r.name key_not_found (number index))
      else at r.items (index -ℤ oldest_cached r)

  -- the later half; the source slices at `size / 2`, within the items when it is called
  unfoldable pub roll : RollingIndex A → Result (RollingIndex A)
  roll r = elim (slice_from r.items (pos (r.size / 2))) [
    | ok xs ↦ ok (record r { items = xs })
    | err e ↦ err e
    | panic ↦ panic
  ]

  abbrev pub append_item : Result (RollingIndex A) → A → ℤ → Result (RollingIndex A)
  append_item (ok r) x index = ok (record r { items = r.items ++ x ∷ []; last_index = index })
  append_item (err e) x index = err e
  append_item panic x index = panic

  -- `r.items[position] = item`
  abbrev pub replace : RollingIndex A → A → ℤ → Result (RollingIndex A)
  replace r x (negsuc n) = panic
  replace r x (pos n) =
      if ltb n (length r.items) then ok (record r { items = set r.items n x }) else panic

  unfoldable pub set_item : RollingIndex A → A → ℤ → Result (RollingIndex A)
  unfolding roll
  set_item r x index =
      if leb_ℤ (pos 0) r.last_index && ltb_ℤ (r.last_index +ℤ pos 1) index
      then err (new_store_err r.name skipped_index (number index))
      else if ltb_ℤ r.last_index (pos 0) || eqb_ℤ index (r.last_index +ℤ pos 1)
      then append_item (if leb r.size (length r.items) then roll r else ok r) x index
      else if ltb_ℤ index (oldest_cached r)
      then err (new_store_err r.name too_late (number index))
      else replace r x (index -ℤ oldest_cached r)

-- ===== src/Common/RollingIndex/Updates.antt =====
-- What `Set` does to the window.
use babble.Base.{
  ℕ, ◌+◌, ◌-◌, ◌/◌, ◌≤◌, ◌<◌, ◌≡◌, ◌⊎◌, pos, ◌+ℤ◌, pos-sub, ltb, leb, ◌==◌, ltb_ℤ, leb_ℤ, [], ◌∷◌,
  ◌++◌, length, set, length-drop, length-append, length-set, drop, if◌then◌else◌, arith, not,
}
use babble.Common.Errors.{ok, err, new_store_err, too_late, skipped_index, number}
use babble.Common.RollingIndex.{RollingIndex, set_item, roll, append_item}
use babble.Common.RollingIndex.Window.{IsRolling, oldest_cached_lem}

module _ {A : Type 0} (r : RollingIndex A) where
  -- the half that `roll` drops, if the next item finds the index full
  abbrev pub dropped : ℕ
  dropped = if leb r.size (length r.items) then r.size / 2 else 0

  abbrev pub appended : A → ℕ → RollingIndex A
  appended x i = record r { items = drop dropped r.items ++ x ∷ []; last_index = pos i }

  -- where the window starts after `Set` has taken an item at `i`
  abbrev pub first_after : ℕ → ℕ → ℕ
  first_after first i =
      if length r.items == 0
      then i
      else if i == first + length r.items
      then first + dropped
      else first

  -- `roll` is called on a full index alone, and then it slices within the items.
  appending :
      (x : A) (i : ℕ)
      → append_item (if leb r.size (length r.items) then roll r else ok r) x (pos i)
        ≡ ok (appended x i)
  unfolding roll
  appending x i = ground arith

  module _ (first : ℕ) (w : IsRolling r first) where
    next_index : r.last_index +ℤ pos 1 ≡ pos (first + length r.items)
    unfolding ◌+ℤ◌
    next_index = ground (arith, w.last)

    was_started : leb_ℤ (pos 0) r.last_index ≡ not (length r.items == 0)
    was_started = ground (arith, w.last, w.fresh)

    not_started : ltb_ℤ r.last_index (pos 0) ≡ (length r.items == 0)
    not_started = ground (arith, w.last, w.fresh)

    -- `Set` on every branch, in the window's own numbers.
    pub set_item_lem :
        (x : A) (i : ℕ)
        → set_item r x (pos i) ≡ (
            if length r.items == 0
            then ok (appended x i)
            else if ltb (first + length r.items) i
            then err (new_store_err r.name skipped_index (number (pos i)))
            else if i == first + length r.items
            then ok (appended x i)
            else if ltb i first
            then err (new_store_err r.name too_late (number (pos i)))
            else ok (record r { items = set r.items (i - first) x }))
    unfolding set_item
    set_item_lem x i =
        rw (oldest_cached_lem r first w, appending, next_index, was_started, not_started)
          (ground (arith, pos-sub i first))

    -- The three ways to return: the first item, the next item, and an item in the window.
    pub set_item_cases :
        (x : A) (i : ℕ) {s : RollingIndex A}
        → set_item r x (pos i) ≡ ok s
        → (s ≡ appended x i) × (length r.items ≡ 0) × (first_after first i ≡ i)
          ⊎ (s ≡ appended x i)
            × (i ≡ first + length r.items)
            × (first_after first i ≡ first + dropped)
          ⊎ (s ≡ record r { items = set r.items (i - first) x })
            × (first ≤ i)
            × (i < first + length r.items)
            × (first_after first i ≡ first)
    set_item_cases x i h = ground (arith, set_item_lem x i, w.fresh)

    -- On a window without a gap that starts at an index from 0 on (`IsRolling`), a `Set` that returns at
    -- an index from 0 on leaves such a window, which starts where `first_after` says.
    pub set_item-IsRolling :
        (x : A) (i : ℕ) {s : RollingIndex A}
        → set_item r x (pos i) ≡ ok s
        → IsRolling s (first_after first i)
    set_item-IsRolling x i {s} h =
        let e = set_item_lem x i in
        let l = length-append (drop dropped r.items) (x ∷ []) in
        let d = length-drop dropped r.items in
        let m = length-set r.items (i - first) x in
        record {
          last = ground (arith, w.last, e, l, d, m, h);
          fresh = ground (arith, e, l, m, w.fresh, h);
        }

    -- With room for two items or more, an index is never over its size.
    pub length-set_item-le :
        (x : A) (i : ℕ) {s : RollingIndex A}
        → 2 ≤ r.size
        → length r.items ≤ r.size
        → set_item r x (pos i) ≡ ok s
        → (length s.items ≤ s.size) × (s.size ≡ r.size)
    length-set_item-le x i two fits h =
        let e = set_item_lem x i in
        let l = length-append (drop dropped r.items) (x ∷ []) in
        let d = length-drop dropped r.items in
        let m = length-set r.items (i - first) x in ground (arith, e, l, d, m, h)

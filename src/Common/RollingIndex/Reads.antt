-- ===== src/Common/RollingIndex/Reads.antt =====
-- What a rolling index returns after a `Set`: the item that was set, and every other item that is
-- still in the window.
use babble.Base.{
  ℕ, ◌+◌, ◌-◌, ◌≤◌, ◌<◌, ◌≡◌, subst, pos, ltb, ◌==◌, [], ◌∷◌, ◌++◌, length, get_elem?,
  get_elem?-drop, get_elem?-append, get_elem?-set, set, length-drop, length-append, length-set,
  drop, some, if◌then◌else◌, arith, inl, inr,
}
use babble.Common.Errors.{ok, err, new_store_err, too_late, key_not_found, number}
use babble.Common.RollingIndex.{RollingIndex, get_item, set_item, or_panic}
use babble.Common.RollingIndex.Window.{IsRolling, get_item_lem}
use babble.Common.RollingIndex.Updates.{
  dropped, appended, set_item_cases, first_after, set_item-IsRolling,
}

module _ {A : Type 0} (r : RollingIndex A) (first : ℕ) (w : IsRolling r first) where
  dropped_le : dropped r ≤ length r.items
  dropped_le = ground arith

  -- The item at `k` of what is left after the first half is dropped and `x` is added.
  get_elem?-appended :
      (x : A) (d k : ℕ)
      → d ≤ length r.items
      → k ≤ length r.items - d
      → get_elem? (drop d r.items ++ x ∷ []) k
        ≡ (if k == length r.items - d then some x else get_elem? r.items (d + k))
  get_elem?-appended x d k h l = ground (
    arith,
    get_elem?-append (drop d r.items) (x ∷ []) k,
    get_elem?-drop d k r.items,
    length-drop d r.items,
  )

  module _ (x : A) (i j : ℕ) where
    after_append :
        (first' : ℕ)
        → IsRolling (appended r x i) first'
        → first' + length (drop (dropped r) r.items) ≡ i
        → get_item (appended r x i) (pos j) ≡ (
            if j == i
            then ok x
            else if ltb j first'
            then err (new_store_err r.name too_late (number (pos j)))
            else if ltb i j
            then err (new_store_err r.name key_not_found (number (pos j)))
            else or_panic (get_elem? r.items (dropped r + (j - first'))))
    after_append first' w' e = rw (get_item_lem (appended r x i) first' w' j) (
        ground (
          arith,
          e,
          dropped_le,
          get_elem?-appended x (dropped r) (j - first'),
          length-append (drop (dropped r) r.items) (x ∷ []),
          length-drop (dropped r) r.items,
        ))

    after_replace :
        IsRolling (record r { items = set r.items (i - first) x }) first
        → first ≤ i
        → i < first + length r.items
        → get_item (record r { items = set r.items (i - first) x }) (pos j)
          ≡ (if j == i then ok x else get_item r (pos j))
    after_replace w' h k =
        rw
          (
            get_item_lem (record r { items = set r.items (i - first) x }) first w' j,
            get_item_lem r first w j,
          )
          (ground (
            arith,
            get_elem?-set r.items (i - first) (j - first) x,
            length-set r.items (i - first) x,
          ))

    -- On a window without a gap that starts at an index from 0 on (`IsRolling`): after a `Set` at an
    -- index from 0 on that returns, `GetItem` at such an index returns the new item if it is the same;
    -- elsewhere it returns what it returned before, except that it reports an item which the `Set` has
    -- dropped as too late.
    pub get_item-set_item :
        {s : RollingIndex A}
        → set_item r x (pos i) ≡ ok s
        → get_item s (pos j) ≡ (
            if j == i
            then ok x
            else if ltb j (first_after r first i)
            then err (new_store_err r.name too_late (number (pos j)))
            else get_item r (pos j))
    get_item-set_item {s} h =
        let w' = set_item-IsRolling r first w x i h in
        let before = get_item_lem r first w j in
        let l = length-drop (dropped r) r.items in
        elim (set_item_cases r first w x i h) [
          | inl (e, none_yet, f) ↦
              let v : IsRolling (appended r x i) i =
                subst (λ t. IsRolling t i) e (subst (IsRolling s) f w') in
              rw (e, f) (ground (arith, before, w.fresh, l, after_append i v))
          | inr (inl (e, next, f)) ↦
              let v : IsRolling (appended r x i) (first + dropped r) =
                subst (λ t. IsRolling t (first + dropped r)) e (subst (IsRolling s) f w') in
              rw (e, f)
                (ground (arith, before, l, dropped_le, next, after_append (first + dropped r) v))
          | inr (inr (e, lo, hi, f)) ↦
              let v : IsRolling (record r { items = set r.items (i - first) x }) first =
                subst (λ t. IsRolling t first) e (subst (IsRolling s) f w') in
              rw (e, f) (ground (arith, before, after_replace v lo hi))
        ]

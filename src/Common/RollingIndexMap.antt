-- ===== src/Common/RollingIndexMap.antt =====
-- src/common/rolling_index_map.go: a rolling index for each key. `Known` returns the last index of
-- every key.
pub mod Keys
use babble.Base.{
  ℕ, List, [], ◌∷◌, ◌++◌, map, GoMap, insert, lookup, Option, none, some, ℤ, last?, nat_key, length,
}
use babble.Common.Errors.{
  Name, item, id, Result, ok, err, panic, or_err, new_store_err, key_not_found, key_already_exists,
  empty, ◌>>=◌,
}
use babble.Common.RollingIndex
use babble.Common.RollingIndex.{
  RollingIndex, new_rolling_index, get_item, set_item, get_last_window,
}

pub record RollingIndexMap (A : Type 0) : Type 0 where
  pub name : Name
  pub size : ℕ
  pub keys : List ℕ
  pub mapping : GoMap ℕ (RollingIndex A)

module _ {A : Type 0} where
  unfoldable pub new_rolling_index_map : Name → ℕ → RollingIndexMap A
  new_rolling_index_map name size = record { name = name; size = size; keys = []; mapping = [] }

  add_absent : Option (RollingIndex A) → RollingIndexMap A → ℕ → Result (RollingIndexMap A)
  add_absent (some r) rim key = err (new_store_err rim.name key_already_exists (id key))
  add_absent none rim key = ok (record rim {
    keys = rim.keys ++ key ∷ [];
    mapping = insert rim.mapping key (new_rolling_index (item rim.name key) rim.size);
  })

  unfoldable pub add_key : RollingIndexMap A → ℕ → Result (RollingIndexMap A)
  unfolding add_absent
  add_key rim key = add_absent (lookup rim.mapping key) rim key

  unfoldable pub get : RollingIndexMap A → ℕ → ℤ → Result (List A)
  get rim key skip_index = do
    items ← or_err (lookup rim.mapping key) (new_store_err rim.name key_not_found (id key))
    RollingIndex.get items skip_index

  -- `rim.mapping[key].GetItem(index)`: for a missing key the pointer is nil
  item_at : Option (RollingIndex A) → ℤ → Result A
  item_at none index = panic
  item_at (some r) index = get_item r index

  unfoldable pub get_item_of : RollingIndexMap A → ℕ → ℤ → Result A
  unfolding item_at
  get_item_of rim key index = item_at (lookup rim.mapping key) index

  unfoldable pub get_last : RollingIndexMap A → ℕ → Result A
  unfolding get_last_window
  get_last rim key = do
    pe ← or_err (lookup rim.mapping key) (new_store_err rim.name key_not_found (id key))
    or_err (last? (get_last_window pe).0) (new_store_err rim.name empty (id key))

  or_new : Option (RollingIndex A) → RollingIndexMap A → ℕ → RollingIndex A
  or_new (some r) rim key = r
  or_new none rim key = new_rolling_index (item rim.name key) rim.size

  -- the map that `Set` leaves: a new key stays even if the item is refused
  kept : RollingIndexMap A → ℕ → RollingIndex A → Result (RollingIndex A) → RollingIndex A
  kept rim key old (ok r) = r
  kept rim key old _ = old

  unfoldable pub set_item_of : RollingIndexMap A → ℕ → A → ℤ → Result (Unit {0}) × RollingIndexMap A
  unfolding or_new kept
  set_item_of rim key x index =
      let items = or_new (lookup rim.mapping key) rim key in
      let r = set_item items x index in
      (r >>= λ _. ok tt, record rim { mapping = insert rim.mapping key (kept rim key items r) })

  unfoldable pub known : RollingIndexMap A → GoMap ℕ ℤ
  unfolding get_last_window
  known rim = map (λ e. (e.0, (get_last_window e.1).1)) rim.mapping

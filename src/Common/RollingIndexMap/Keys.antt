-- ===== src/Common/RollingIndexMap/Keys.antt =====
-- How the keys of a map stay apart.
use babble.Base.{ℕ, ◌≡◌, ◌≢◌, refl, lookup-insert, ℤ, nat_key, if_neg}
use babble.Common.RollingIndex.{RollingIndex}
use babble.Common.RollingIndexMap.{RollingIndexMap, get, set_item_of, get_item_of, get_last}

module _ {A : Type 0} (rim : RollingIndexMap A) (key other : ℕ) (x : A) (index : ℤ) where
  -- Setting an item of one key changes nothing that another key returns, even if it is refused.
  pub set_item_of_other :
      (i : ℤ)
      → key ≢ other
      → (get_item_of (set_item_of rim key x index).1 other i ≡ get_item_of rim other i)
        × (get_last (set_item_of rim key x index).1 other ≡ get_last rim other)
        × (get (set_item_of rim key x index).1 other i ≡ get rim other i)
  unfolding set_item_of get_item_of get_last get
  set_item_of_other i h =
      let e = λ (v : RollingIndex A). lookup-insert rim.mapping key other v in
      (rw (e _, if_neg _ h) refl, rw (e _, if_neg _ h) refl, rw (e _, if_neg _ h) refl)

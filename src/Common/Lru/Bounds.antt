-- ===== src/Common/Lru/Bounds.antt =====
-- A cache never holds more entries than its size, nor a key twice.
use babble.Base.{
  ℕ, suc, ◌≤◌, ◌≡◌, refl, ap, List, [], ◌∷◌, GoMap, Key, lookup, delete, lookup-delete, length,
  none, is_some, ltb, true, arith, Option-cases, inl, inr, Bool-cases, Distinct, delete-Distinct,
  length-delete,
}
use babble.Common.Lru.{Lru, but_last, new_lru, add, get, touch, remove, remove_oldest, push, purge}
use babble.Common.Lru.Contents.{absent, lookup-but_last}

pub record IsCache {K V : Type 0} ⦃k : Key K⦄ (c : Lru K V) : Type 0 where
  pub distinct : Distinct c.evict_list
  pub fits : length c.evict_list ≤ c.size

-- The operations, and the cache that each leaves.
pub data Call (K V : Type 0) : Type 0 where
  adds : K → V → Call K V
  gets removes : K → Call K V
  removes_oldest purges : Call K V

length-but_last : {A : Type 0} (x : A) (xs : List A) → length (but_last (x ∷ xs)) ≡ length xs
length-but_last x [] = refl
length-but_last x (y ∷ ys) = ap suc (length-but_last y ys)

module _ {K V : Type 0} ⦃k : Key K⦄ where
  abbrev pub after : Lru K V → Call K V → Lru K V
  after c (adds key v) = (add c key v).0
  after c (gets key) = (get c key).0
  after c (removes key) = (remove c key).0
  after c removes_oldest = (remove_oldest c).0
  after c purges = purge c

  pub new_lru-IsCache : (size : ℕ) → IsCache (new_lru {K = K} {V = V} size)
  unfolding new_lru
  new_lru-IsCache size = record { distinct = tt; fits = omega arith }

  but_last-Distinct : (m : GoMap K V) → Distinct m → Distinct (but_last m)
  but_last-Distinct [] h = tt
  but_last-Distinct (e ∷ []) h = tt
  but_last-Distinct (e ∷ f ∷ m) h =
      (rw (lookup-but_last (f ∷ m) e.0 h.1) (ground (arith, h.0)), but_last-Distinct (f ∷ m) h.1)

  front-IsCache :
      (c : Lru K V) (key : K) (v : V)
      → is_some (lookup c.evict_list key) ≡ true
      → IsCache c
      → IsCache (record c { evict_list = (key, v) ∷ delete c.evict_list key })
  front-IsCache c key v e h = record {
    distinct = (rw lookup-delete (ground arith), delete-Distinct c.evict_list key h.distinct);
    fits = ground (arith, length-delete c.evict_list key h.distinct, h.fits);
  }

  get-IsCache : (c : Lru K V) (key : K) → IsCache c → IsCache (get c key).0
  unfolding get
  get-IsCache c key h = elim (Option-cases (lookup c.evict_list key)) [
    | inl e ↦ rw (e, touch) h
    | inr (v, e) ↦ rw (e, touch) (front-IsCache c key v (rw e) h)
  ]

  push-IsCache :
      (c : Lru K V) (key : K) (v : V)
      → lookup c.evict_list key ≡ none
      → IsCache c
      → IsCache (push c (key, v)).0
  push-IsCache c key v e h = elim (Bool-cases (ltb c.size (suc (length c.evict_list)))) [
    | inl full ↦ rw full (record {
      distinct = but_last-Distinct ((key, v) ∷ c.evict_list) (e, h.distinct);
      fits = rw length-but_last h.fits;
    })
    | inr room ↦ rw room (record { distinct = (e, h.distinct); fits = ground arith })
  ]

  add-IsCache : (c : Lru K V) (key : K) (v : V) → IsCache c → IsCache (add c key v).0
  unfolding add
  add-IsCache c key v h = elim (Bool-cases (is_some (lookup c.evict_list key))) [
    | inl e ↦ rw e (front-IsCache c key v e h)
    | inr e ↦ rw e (push-IsCache c key v (absent _ e) h)
  ]

  remove-IsCache : (c : Lru K V) (key : K) → IsCache c → IsCache (remove c key).0
  unfolding remove
  remove-IsCache c key h = elim (Bool-cases (is_some (lookup c.evict_list key))) [
    | inl e ↦ rw e (record {
      distinct = delete-Distinct c.evict_list key h.distinct;
      fits = ground (arith, length-delete c.evict_list key h.distinct, h.fits);
    })
    | inr e ↦ rw e h
  ]

  length-but_last-le : (m : GoMap K V) → length (but_last m) ≤ length m
  length-but_last-le [] = omega arith
  length-but_last-le (e ∷ m) = omega (arith, length-but_last e m)

  -- Every operation keeps a cache within its size, with no key twice.
  pub after-IsCache : (c : Lru K V) (call : Call K V) → IsCache c → IsCache (after c call)
  unfolding remove_oldest purge
  after-IsCache c (adds key v) h = add-IsCache c key v h
  after-IsCache c (gets key) h = get-IsCache c key h
  after-IsCache c (removes key) h = remove-IsCache c key h
  after-IsCache c removes_oldest h = record {
    distinct = but_last-Distinct c.evict_list h.distinct;
    fits = omega (arith, length-but_last-le c.evict_list, h.fits);
  }
  after-IsCache c purges h = record { distinct = tt; fits = omega arith }

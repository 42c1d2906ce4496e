-- ===== src/Common/Lru/Contents.antt =====
-- What can be read from a cache after each operation.
use babble.Base.{
  suc, ◌<◌, ◌≡◌, refl, [], ◌∷◌, GoMap, Key, lookup, lookup-delete, length, Option, none, some,
  is_some, ltb, if◌then◌else◌, Bool, true, false, last?, ite, arith, Option-cases, inl, inr,
  Bool-cases, subst, if_pos, if_neg, Distinct, not, ◌&&◌,
}
use babble.Common.Lru.{Lru, but_last, add, get, touch, peek}

-- the key that goes when the entry before the last is the end of the list
abbrev pub evicted : {K V : Type 0} → Lru K V → Option (K × V)
evicted c = if ltb c.size (suc (length c.evict_list)) then last? c.evict_list else none

abbrev pub has_key : {K V : Type 0} → ⦃k : Key K⦄ → Option (K × V) → K → Bool
has_key none q = false
has_key ⦃k⦄ (some e) q = ite (k.dec e.0 q) true false

pub absent : {V : Type 0} (o : Option V) → is_some o ≡ false → o ≡ none
absent none h = refl
absent (some v) h = cc

module _ {K V : Type 0} ⦃k : Key K⦄ where
  -- `Get` returns the value of the key, and changes no value of any key.
  pub peek-get :
      (c : Lru K V) (key q : K) → ((get c key).1 ≡ peek c key) × (peek (get c key).0 q ≡ peek c q)
  unfolding get peek lookup
  peek-get c key q = elim (Option-cases (lookup c.evict_list key)) [
    | inl e ↦ rw (e, touch) (refl, refl)
    | inr (v, e) ↦ rw (e, touch) (refl, ground (arith, lookup-delete c.evict_list key q, e))
  ]

  not-has_key-last : (m : GoMap K V) (q : K) → lookup m q ≡ none → has_key (last? m) q ≡ false
  unfolding lookup
  not-has_key-last [] q h = refl
  not-has_key-last (e ∷ []) q h = ground arith
  not-has_key-last (e ∷ f ∷ m) q h = not-has_key-last (f ∷ m) q (ground arith)

  pub lookup-but_last :
      (m : GoMap K V) (q : K)
      → Distinct m
      → lookup (but_last m) q ≡ (if has_key (last? m) q then none else lookup m q)
  unfolding lookup
  lookup-but_last [] q h = refl
  lookup-but_last (e ∷ []) q h = ground arith
  lookup-but_last (e ∷ f ∷ m) q h = elim (k.dec e.0 q) [
    | yes p ↦
        rw
          (
            not-has_key-last (f ∷ m) q (subst (λ t. lookup (f ∷ m) t ≡ none) p h.0),
            if_pos _ p,
            if_pos _ p,
          )
          refl
    | no n ↦ rw (if_neg _ n, if_neg _ n) (lookup-but_last (f ∷ m) q h.1)
  ]

  -- After `Add` in a cache of at least one place and with no key twice, the key has the value; a new
  -- key may push out the oldest entry, and the values of all other keys are as before.
  pub peek-add :
      (c : Lru K V) (key q : K) (v : V)
      → Distinct c.evict_list
      → 0 < c.size
      → peek (add c key v).0 q
        ≡ ite
            (k.dec key q)
            (some v)
            (if not (is_some (peek c key)) && has_key (evicted c) q then none else peek c q)
  unfolding add peek lookup
  peek-add c key q v h room = elim (Bool-cases (is_some (lookup c.evict_list key))) [
    | inl e ↦ rw (e, add) (ground (arith, lookup-delete c.evict_list key q))
    | inr e ↦
        rw (e, add)
          (ground (
            arith,
            room,
            lookup-but_last ((key, v) ∷ c.evict_list) q (absent _ e, h),
            not-has_key-last c.evict_list key (absent _ e),
          ))
  ]

  -- what is added is found
  pub get-add :
      (c : Lru K V) (key : K) (v : V)
      → Distinct c.evict_list
      → 0 < c.size
      → (get (add c key v).0 key).1 ≡ some v
  get-add c key v h room =
      rw ((peek-get (add c key v).0 key key).0, peek-add c key key v h room, if_pos _ refl) refl

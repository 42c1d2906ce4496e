-- ===== src/Common/Lru/Holds.antt =====
-- A property of every entry of a cache, and the operations that keep it.
use babble.Base.{
  ℕ, ◌<◌, ◌≡◌, ◌∙◌, subst, Key, Option, some, none, ite, if_pos, if_neg, if◌then◌else◌, Bool, sym,
  arith, lookup,
}
use babble.Common.Lru.{Lru, add, get, peek, new_lru}
use babble.Common.Lru.Contents.{peek-get, peek-add}
use babble.Common.Lru.Bounds.{IsCache, adds, gets, after-IsCache, new_lru-IsCache}

-- A cache with room for an entry, whose entries have the property.
pub record Holds {K V : Type 0} ⦃k : Key K⦄ (P : K → V → Type 0) (c : Lru K V) : Type 0 where
  pub cache : IsCache c
  pub room : 0 < c.size
  pub all : (key : K) (v : V) → peek c key ≡ some v → P key v

module _ {K V : Type 0} ⦃k : Key K⦄ (P : K → V → Type 0) where
  pub new_lru-Holds : (size : ℕ) → 0 < size → Holds P (new_lru size)
  unfolding new_lru peek lookup
  new_lru-Holds size h = record {
    cache = new_lru-IsCache size;
    room = h;
    all = λ key v e. elim (is_some_none e) [ ];
  }
    where
      is_some_none : {A : Type 0} {v : A} → none ≡ some v → ⊥
      is_some_none e = cc

  size-add : (c : Lru K V) (key : K) (v : V) → (add c key v).0.size ≡ c.size
  unfolding add
  size-add c key v = ground arith

  size-get : (c : Lru K V) (key : K) → (get c key).0.size ≡ c.size
  unfolding get
  size-get c key = ground arith

  unless_none : (b : Bool) (o : Option V) (w : V) → (if b then none else o) ≡ some w → o ≡ some w
  unless_none b o w e = ground arith

  -- what is read after `Add` is the new entry or was there before
  pub peek-add_cases :
      (c : Lru K V) (key q : K) (v w : V)
      → Holds P c
      → P key v
      → peek (add c key v).0 q ≡ some w
      → P q w
  peek-add_cases c key q v w h p e =
      let read : ite (k.dec key q) (some v) _ ≡ some w =
        sym (peek-add c key q v h.cache.distinct h.room) ∙ e in
      elim (k.dec key q) [
        | yes same ↦
            let both : some v ≡ some w = rw (if_pos _ same) at read in
            let value : v ≡ w = cc in
            subst (λ (t : V). P q t) value (subst (λ (j : K). P j v) same p)
        | no other ↦ h.all q w (unless_none _ (peek c q) w (rw (if_neg _ other) at read))
      ]

  pub get-Holds : (c : Lru K V) (key : K) → Holds P c → Holds P (get c key).0
  get-Holds c key h = record {
    cache = after-IsCache c (gets key) h.cache;
    room = rw (size-get c key) h.room;
    all = λ q v e. h.all q v (sym ((peek-get c key q).1) ∙ e);
  }

  pub add-Holds : (c : Lru K V) (key : K) (v : V) → Holds P c → P key v → Holds P (add c key v).0
  add-Holds c key v h p = record {
    cache = after-IsCache c (adds key v) h.cache;
    room = rw (size-add c key v) h.room;
    all = λ q w e. peek-add_cases c key q v w h p e;
  }

module _ {K V : Type 0} ⦃k : Key K⦄ (P Q : K → V → Type 0) where
  pub weaken-Holds : (c : Lru K V) → ((key : K) (v : V) → P key v → Q key v) → Holds P c → Holds Q c
  weaken-Holds c f h = record {
    cache = h.cache;
    room = h.room;
    all = λ key v e. f key v (h.all key v e);
  }

-- ===== src/Base/Map.antt =====
-- Go's `map[K]V` as an association list, in the order in which a `range` visits it. A key has a
-- decidable equality, by instance.
use Prim.Native.String.{String}
use Prim.Native.Nat.{ℕ, ◌+◌}
use mathlib.Core.Path.{◌≡◌, refl, subst}
use mathlib.Core.Logic.{ite, if_pos, if_neg, inl, inr}
use mathlib.Core.List.{List, [], ◌∷◌, map}
use mathlib.Core.Option.{Option, none, some}
use native.Mathlib.Omega.{arith}
use native.Mathlib.Decide.{ℕ_discrete}
use text.Mathlib.Text.{◌==◌ as str_eq}
use text.Mathlib.TextEquality.{eq_iff}
use babble.Base.Tests.{Bool-cases, is_some, if◌then◌else◌}
use babble.Base.Lists.{length, All}
use babble.Base.Int.{ℤ, ℤ_discrete}

pub record Key {ℓ} (K : Type ℓ) : Type ℓ where
  pub dec : Discrete K

unfoldable pub String-discrete : Discrete String
String-discrete a b = elim (Bool-cases (str_eq a b)) [
  | inl e ↦ yes ((eq_iff a b).0 e)
  | inr e ↦ no (λ p. ground (arith, eq_iff a b))
]

instance abbrev pub string_key : Key String
string_key = record { dec = String-discrete }

instance abbrev pub nat_key : Key ℕ
nat_key = record { dec = ℕ_discrete }

instance abbrev pub int_key : Key ℤ
int_key = record { dec = ℤ_discrete }

abbrev pub GoMap {ℓ} : Type ℓ → Type ℓ → Type ℓ
GoMap K V = List (K × V)

abbrev pub keys {ℓ} : {K V : Type ℓ} → GoMap K V → List K
keys = map (λ e. e.0)

module _ {ℓ} {K V : Type ℓ} ⦃k : Key K⦄ where
  -- m[key], with `none` for a key that is missing
  unfoldable pub lookup : GoMap K V → K → Option V
  lookup [] q = none
  lookup ((j, v) ∷ m) q = ite (k.dec j q) (some v) (lookup m q)

  -- m[key] = v
  unfoldable pub insert : GoMap K V → K → V → GoMap K V
  insert [] q v = (q, v) ∷ []
  insert ((j, w) ∷ m) q v = ite (k.dec j q) ((j, v) ∷ m) ((j, w) ∷ insert m q v)

  -- delete(m, key)
  unfoldable pub delete : GoMap K V → K → GoMap K V
  delete [] q = []
  delete ((j, w) ∷ m) q = ite (k.dec j q) (delete m q) ((j, w) ∷ delete m q)

  pub lookup-insert :
      (m : GoMap K V) (q p : K) (v : V)
      → lookup (insert m q v) p ≡ ite (k.dec q p) (some v) (lookup m p)
  unfolding lookup insert
  lookup-insert [] q p v = refl
  lookup-insert ((j, w) ∷ m) q p v = ground (arith, lookup-insert m q p v)

  pub lookup-delete :
      (m : GoMap K V) (q p : K) → lookup (delete m q) p ≡ ite (k.dec q p) none (lookup m p)
  unfolding lookup delete
  lookup-delete [] q p = ground arith
  lookup-delete ((j, w) ∷ m) q p = ground (arith, lookup-delete m q p)

  -- No key stands twice.
  abbrev pub Distinct : GoMap K V → Type ℓ
  Distinct [] = Unit
  Distinct ((j, w) ∷ m) = (lookup m j ≡ none) × Distinct m

  pub delete-Distinct : (m : GoMap K V) (q : K) → Distinct m → Distinct (delete m q)
  unfolding delete
  delete-Distinct [] q h = tt
  delete-Distinct ((j, w) ∷ m) q h =
      ground (arith, lookup-delete m q j, h.0, delete-Distinct m q h.1)

  pub insert-Distinct : (m : GoMap K V) (q : K) (v : V) → Distinct m → Distinct (insert m q v)
  unfolding insert lookup
  insert-Distinct [] q v h = (refl, tt)
  insert-Distinct ((j, w) ∷ m) q v h =
      ground (arith, lookup-insert m q j v, h.0, h.1, insert-Distinct m q v h.1)

  pub length-delete :
      (m : GoMap K V) (q : K)
      → Distinct m
      → length (delete m q) + (if is_some (lookup m q) then 1 else 0) ≡ length m
  unfolding delete lookup
  length-delete [] q h = omega arith
  length-delete ((j, w) ∷ m) q h = ground (arith, length-delete m q h.1, h.0)

  pub delete_absent : (m : GoMap K V) (q : K) → lookup m q ≡ none → delete m q ≡ m
  unfolding delete lookup
  delete_absent [] q h = refl
  delete_absent ((j, w) ∷ m) q h = ground (arith, delete_absent m q)

  -- what holds of every entry holds of one that is found
  pub lookup-All {κ} :
      (P : K → V → Type κ) (m : GoMap K V) (q : K) (v : V)
      → All (λ e. P e.0 e.1) m
      → lookup m q ≡ some v
      → P q v
  unfolding lookup
  lookup-All P [] q v h e = absurd (ground (arith, e))
  lookup-All P ((j, w) ∷ m) q v h e = elim (k.dec j q) [
    | yes same ↦
        let both : some w ≡ some v = rw (if_pos _ same) at e in
        let value : w ≡ v = cc in subst (λ t. P q t) value (subst (λ t. P t w) same h.0)
    | no other ↦ lookup-All P m q v h.1 (rw (if_neg _ other) at e)
  ]

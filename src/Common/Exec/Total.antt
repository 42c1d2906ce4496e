-- ===== src/Common/Exec/Total.antt =====
-- Methods that keep an invariant of the object and do not panic, as long as it holds. What they return
-- without an error may have a property too.
use babble.Base.{List, [], ◌∷◌}
use babble.Common.Errors.{Result, ok, err, panic}
use babble.Common.Exec.{Exec, attempt, caught, continue, for_each, ◌>>=◌}

-- not a panic, and a value with the property if it is a value
abbrev pub Gives : {A : Type 0} → (A → Type 0) → Result A → Type 0
Gives Q (ok a) = Q a
Gives Q (err e) = Unit
Gives Q panic = ⊥

abbrev pub Any : {A : Type 0} → A → Type 0
Any a = Unit

abbrev pub NoPanic : {A : Type 0} → Result A → Type 0
NoPanic = Gives Any

pub Gives-NoPanic : {A : Type 0} (Q : A → Type 0) (r : Result A) → Gives Q r → NoPanic r
Gives-NoPanic Q (ok a) g = tt
Gives-NoPanic Q (err e) g = tt
Gives-NoPanic Q panic g = elim g [ ]

module _ {S : Type 0} (P : S → Type 0) where
  -- From a state with the invariant, the method leaves one with it and returns such a value.
  abbrev pub Returns : {A : Type 0} → (A → Type 0) → Exec S A → Type 0
  Returns Q m = (s : S) → P s → P (m s).1 × Gives Q (m s).0

  abbrev pub IsTotal : {A : Type 0} → Exec S A → Type 0
  IsTotal m = Returns Any m

  module _ {A B : Type 0} (Q : A → Type 0) (R : B → Type 0) where
    pub continue-Returns :
        (r : Result A) (f : A → Exec S B)
        → Gives Q r
        → ((a : A) → Q a → Returns R (f a))
        → Returns R (continue r f)
    continue-Returns (ok a) f n t s p = t a n s p
    continue-Returns (err e) f n t s p = (p, tt)
    continue-Returns panic f n t s p = elim n [ ]

    pub bind-Returns :
        (m : Exec S A) (f : A → Exec S B)
        → Returns Q m
        → ((a : A) → Q a → Returns R (f a))
        → Returns R (m >>= f)
    bind-Returns m f t u s p = continue-Returns (m s).0 f (t s p).1 u (m s).1 (t s p).0

  -- the same, when nothing is known of the first value
  pub bind-IsTotal :
      {A B : Type 0} (R : B → Type 0) (m : Exec S A) (f : A → Exec S B)
      → IsTotal m
      → ((a : A) → Returns R (f a))
      → Returns R (m >>= f)
  bind-IsTotal R m f t u = bind-Returns Any R m f t (λ a _. u a)

  caught-IsTotal :
      {A : Type 0} (Q : A → Type 0) (r : Result A) (s : S)
      → P s
      → Gives Q r
      → P (caught r s).1 × Gives (Gives Q) (caught r s).0
  caught-IsTotal Q (ok a) s p n = (p, n)
  caught-IsTotal Q (err e) s p n = (p, tt)
  caught-IsTotal Q panic s p n = elim n [ ]

  pub attempt-Returns :
      {A : Type 0} (Q : A → Type 0) (m : Exec S A) → Returns Q m → Returns (Gives Q) (attempt m)
  attempt-Returns Q m t s p = caught-IsTotal Q (m s).0 (m s).1 (t s p).0 (t s p).1

  pub for_each-IsTotal :
      {A : Type 0} (xs : List A) (f : A → Exec S (Unit {0}))
      → ((a : A) → IsTotal (f a))
      → IsTotal (for_each xs f)
  for_each-IsTotal [] f t s p = (p, tt)
  for_each-IsTotal (x ∷ xs) f t s p =
      bind-IsTotal Any (f x) (λ _. for_each xs f) (t x) (λ _. for_each-IsTotal xs f t) s p

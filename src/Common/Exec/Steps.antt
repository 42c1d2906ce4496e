-- ===== src/Common/Exec/Steps.antt =====
-- How methods change the object, on every path, and what they return. A `Change` says which changes
-- are allowed: none at all, and one after another.
use babble.Base.{List, [], ◌∷◌}
use babble.Common.Errors.{Result, ok, err, panic}
use babble.Common.Exec.{Exec, pure, attempt, caught, continue, for_each, ◌>>=◌}

-- a property of what is returned without an error
abbrev pub IfOk : {A : Type 0} → (A → Type 0) → Result A → Type 0
IfOk Q (ok a) = Q a
IfOk Q (err e) = Unit
IfOk Q panic = Unit

abbrev pub Whatever : {A : Type 0} → A → Type 0
Whatever a = Unit

pub whatever : {A : Type 0} (r : Result A) → IfOk Whatever r
whatever (ok a) = tt
whatever (err e) = tt
whatever panic = tt

pub record Change (S : Type 0) : Type 1 where
  pub allowed : S → S → Type 0
  pub none_at_all : (s : S) → allowed s s
  pub then_ : (r s t : S) → allowed r s → allowed s t → allowed r t

-- every change is allowed
abbrev pub any_change : {S : Type 0} → Change S
any_change = record { allowed = λ s t. Unit; none_at_all = λ s. tt; then_ = λ r s t p q. tt }

module _ {S : Type 0} (c : Change S) where
  -- From every state, the change is allowed, and a value that is returned has the property.
  abbrev pub Steps : {A : Type 0} → (A → Type 0) → Exec S A → Type 0
  Steps Q m = (s : S) → c.allowed s (m s).1 × IfOk Q (m s).0

  pub pure-Steps : {A : Type 0} (Q : A → Type 0) (a : A) → Q a → Steps Q (pure a)
  pure-Steps Q a q s = (c.none_at_all s, q)

  module _ {A B : Type 0} (Q : A → Type 0) (R : B → Type 0) where
    pub continue-Steps :
        (r : Result A) (f : A → Exec S B)
        → IfOk Q r
        → ((a : A) → Q a → Steps R (f a))
        → Steps R (continue r f)
    continue-Steps (ok a) f q t s = t a q s
    continue-Steps (err e) f q t s = (c.none_at_all s, tt)
    continue-Steps panic f q t s = (c.none_at_all s, tt)

    pub bind-Steps :
        (m : Exec S A) (f : A → Exec S B)
        → Steps Q m
        → ((a : A) → Q a → Steps R (f a))
        → Steps R (m >>= f)
    bind-Steps m f t u s =
        let (change, q) = t s in
        let (change', r) = continue-Steps (m s).0 f q u (m s).1 in
        (c.then_ s (m s).1 _ change change', r)

  -- the same, when nothing is known of the first value
  pub bind-Moves :
      {A B : Type 0} (R : B → Type 0) (m : Exec S A) (f : A → Exec S B)
      → Steps Whatever m
      → ((a : A) → Steps R (f a))
      → Steps R (m >>= f)
  bind-Moves R m f t u = bind-Steps Whatever R m f t (λ a _. u a)

  caught-Steps :
      {A : Type 0} (Q : A → Type 0) (r : Result A) (s t : S)
      → c.allowed s t
      → IfOk Q r
      → c.allowed s (caught r t).1 × IfOk (IfOk Q) (caught r t).0
  caught-Steps Q (ok a) s t p q = (p, q)
  caught-Steps Q (err e) s t p q = (p, tt)
  caught-Steps Q panic s t p q = (p, tt)

  pub attempt-Steps :
      {A : Type 0} (Q : A → Type 0) (m : Exec S A) → Steps Q m → Steps (IfOk Q) (attempt m)
  attempt-Steps Q m t s = caught-Steps Q (m s).0 s (m s).1 (t s).0 (t s).1

  pub for_each-Steps :
      {A : Type 0} (xs : List A) (f : A → Exec S (Unit {0}))
      → ((a : A) → Steps Whatever (f a))
      → Steps Whatever (for_each xs f)
  for_each-Steps [] f t s = (c.none_at_all s, tt)
  for_each-Steps (x ∷ xs) f t s =
      bind-Moves Whatever (f x) (λ _. for_each xs f) (t x) (λ _. for_each-Steps xs f t) s

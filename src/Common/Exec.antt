-- ===== src/Common/Exec.antt =====
-- Methods that change an object and may return an error or panic. What was written before an error
-- stays written, so the state comes back beside the result.
pub mod Total
pub mod Steps
pub mod Inverse
use babble.Base.{List, [], ◌∷◌}
use babble.Common.Errors.{Error, Result, ok, err, panic}

abbrev pub Exec : Type 0 → Type 0 → Type 0
Exec S A = S → Result A × S

module _ {S A : Type 0} where
  abbrev pub pure : A → Exec S A
  pure a s = (ok a, s)

  abbrev pub fail : Error → Exec S A
  fail e s = (err e, s)

  abbrev pub lift : Result A → Exec S A
  lift r s = (r, s)

  abbrev pub gets : (S → A) → Exec S A
  gets f s = (ok (f s), s)

  -- runs a method and hands on its error as a value; a panic goes through
  abbrev pub caught : Result A → S → Result (Result A) × S
  caught (ok a) s = (ok (ok a), s)
  caught (err e) s = (ok (err e), s)
  caught panic s = (panic, s)

  abbrev pub attempt : Exec S A → Exec S (Result A)
  attempt m s = let (r, s') = m s in caught r s'

abbrev pub modify : {S : Type 0} → (S → S) → Exec S (Unit {0})
modify f s = (ok tt, f s)

abbrev pub continue : {S A B : Type 0} → Result A → (A → Exec S B) → Exec S B
continue (ok a) f s = f a s
continue (err e) f s = (err e, s)
continue panic f s = (panic, s)

infixl 5 ◌>>=◌ ◌>>◌
abbrev pub ◌>>=◌ : {S A B : Type 0} → Exec S A → (A → Exec S B) → Exec S B
◌>>=◌ m f s = let (r, s') = m s in continue r f s'

abbrev pub ◌>>◌ : {S A B : Type 0} → Exec S A → Exec S B → Exec S B
m >> n = m >>= λ _. n

-- A loop over a list whose body may return early with an error.
abbrev pub for_each : {S A : Type 0} → List A → (A → Exec S (Unit {0})) → Exec S (Unit {0})
for_each [] f = pure tt
for_each (x ∷ xs) f = do f x; for_each xs f

-- ===== src/Common/Exec/Inverse.antt =====
-- What has happened when a method returned a value.
use babble.Base.{◌≡◌, refl}
use babble.Common.Errors.{Result, ok, err, panic}
use babble.Common.Exec.{Exec, continue, ◌>>=◌}

module _ {S A B : Type 0} where
  continue-inverse :
      (r : Result A) (f : A → Exec S B) (s t : S) (b : B)
      → continue r f s ≡ (ok b, t)
      → (a : A) × (r ≡ ok a) × (f a s ≡ (ok b, t))
  continue-inverse (ok a) f s t b e = (a, refl, e)
  continue-inverse (err x) f s t b e = absurd cc
  continue-inverse panic f s t b e = absurd cc

  -- both steps returned
  pub bind-inverse :
      (m : Exec S A) (f : A → Exec S B) (s t : S) (b : B)
      → (m >>= f) s ≡ (ok b, t)
      → (a : A) × (u : S) × (m s ≡ (ok a, u)) × (f a u ≡ (ok b, t))
  bind-inverse m f s t b e =
      let (a, r, rest) = continue-inverse (m s).0 f (m s).1 t b e in (a, (m s).1, pair r, rest)
    where
      pair : {a : A} → (m s).0 ≡ ok a → m s ≡ (ok a, (m s).1)
      pair r = cc

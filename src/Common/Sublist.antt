-- ===== src/Common/Sublist.antt =====
-- Lists that keep the order of another and leave some of its elements out: what the loops of the
-- consensus methods select.
use babble.Base.{count, ◌≤◌, List, [], ◌∷◌, Bool, arith, All}

pub data Sublist {A : Type 0} : List A → List A → Type 0 where
  done : Sublist [] []
  keep : (x : A) {xs ys : List A} → Sublist xs ys → Sublist (x ∷ xs) (x ∷ ys)
  skip : (y : A) {xs ys : List A} → Sublist xs ys → Sublist xs (y ∷ ys)

module _ {A : Type 0} where
  pub count-Sublist : (p : A → Bool) {xs ys : List A} → Sublist xs ys → count p xs ≤ count p ys
  count-Sublist p done = omega arith
  count-Sublist p (keep x s) = ground (arith, count-Sublist p s)
  count-Sublist p (skip y s) = ground (arith, count-Sublist p s)

  pub All-Sublist : (P : A → Type 0) {xs ys : List A} → Sublist xs ys → All P ys → All P xs
  All-Sublist P done h = tt
  All-Sublist P (keep x s) h = (h.0, All-Sublist P s h.1)
  All-Sublist P (skip y s) h = All-Sublist P s h.1

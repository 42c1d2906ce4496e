-- ===== src/Node/Core/Diff/Sorted.antt =====
-- The sort of events by their topological indexes.
use babble.Base.{refl, ltb_ℤ, ◌≤ℤ◌, List, [], ◌∷◌, nat_key, string_key, Bool-cases, inl, inr, arith}
use mathlib.Core.List.{Permᴰ}
use mathlib.Core.List.Permᴰ
use babble.Hashgraph.Event.{Event}
use babble.Node.Core.Diff.{insert_topological, sort_topological}

-- the topological indexes do not go down
abbrev pub IsTopological : List Event → Type 0
IsTopological [] = Unit
IsTopological (a ∷ []) = Unit
IsTopological (a ∷ b ∷ es) = (a.topological_index ≤ℤ b.topological_index) × IsTopological (b ∷ es)

insert_topological-IsTopological :
    (a : Event) (es : List Event) → IsTopological es → IsTopological (insert_topological a es)
insert_topological-IsTopological a [] t = tt
insert_topological-IsTopological a (b ∷ []) t =
    elim (Bool-cases (ltb_ℤ b.topological_index a.topological_index)) [
      | inl e ↦ rw e (ground (arith, e), tt)
      | inr e ↦ rw e (ground (arith, e), tt)
    ]
insert_topological-IsTopological a (b ∷ c ∷ es) t =
    elim (Bool-cases (ltb_ℤ b.topological_index a.topological_index)) [
      | inr e ↦ rw e (ground (arith, e), t)
      | inl e ↦
          let rest = insert_topological-IsTopological a (c ∷ es) t.1 in
          elim (Bool-cases (ltb_ℤ c.topological_index a.topological_index)) [
            | inl f ↦ rw (e, f) (t.0, rw f at rest)
            | inr f ↦ rw (e, f) (ground (arith, e), rw f at rest)
          ]
    ]

pub sort_topological-IsTopological : (es : List Event) → IsTopological (sort_topological es)
unfolding sort_topological
sort_topological-IsTopological [] = tt
sort_topological-IsTopological (a ∷ es) =
    insert_topological-IsTopological a (sort_topological es) (sort_topological-IsTopological es)

insert_topological-Perm : (a : Event) (es : List Event) → Permᴰ (a ∷ es) (insert_topological a es)
insert_topological-Perm a [] = Permᴰ.refl (a ∷ [])
insert_topological-Perm a (b ∷ es) =
    elim (Bool-cases (ltb_ℤ b.topological_index a.topological_index)) [
      | inl e ↦
          rw e (Permᴰ.trans (Permᴰ.swap refl refl) (Permᴰ.cons refl (insert_topological-Perm a es)))
      | inr e ↦ rw e (Permᴰ.refl (a ∷ b ∷ es))
    ]

pub sort_topological-Perm : (es : List Event) → Permᴰ es (sort_topological es)
unfolding sort_topological
sort_topological-Perm [] = Permᴰ.refl []
sort_topological-Perm (a ∷ es) =
    Permᴰ.trans (Permᴰ.cons refl (sort_topological-Perm es))
      (insert_topological-Perm a (sort_topological es))

-- ===== src/Hashgraph/Coordinates/Merge.antt =====
-- The last ancestors of an event are the highest that its parents know.
use babble.Base.{
  leb_ℤ, String, ap, ◌≡◌, refl, [], ◌∷◌, lookup, insert, lookup-insert, Option, none, some,
  if◌then◌else◌, string_key, ite, if_pos, if_neg, Distinct, inl, inr, arith, subst, Bool-cases,
}
use babble.Hashgraph.Event.{EventCoordinates, CoordinatesMap}
use babble.Hashgraph.Coordinates.{is_below, merge_ancestors}

-- of two entries the one with the greater index, and the first if they are equal
abbrev pub higher : Option EventCoordinates → Option EventCoordinates → Option EventCoordinates
higher o none = o
higher none (some c) = some c
higher (some d) (some c) = if leb_ℤ c.index d.index then some d else some c

higher_lem :
    (o : Option EventCoordinates) (c : EventCoordinates)
    → higher o (some c) ≡ (if is_below o c then some c else o)
higher_lem none c = refl
higher_lem (some d) c = ground arith

step_lem :
    (la : CoordinatesMap) (p q : String) (c : EventCoordinates)
    → lookup (if is_below (lookup la p) c then insert la p c else la) q
      ≡ ite (string_key.dec p q) (higher (lookup la p) (some c)) (lookup la q)
step_lem la p q c = elim (Bool-cases (is_below (lookup la p) c)) [
  | inl e ↦ rw (e, lookup-insert la p q c, higher_lem (lookup la p) c, e) refl
  | inr e ↦ elim (string_key.dec p q) [
    | yes same ↦ rw e (ground (arith, ap (lookup la) same, higher_lem (lookup la p) c))
    | no other ↦ rw e (ground (arith, other))
  ]
]

-- Where the other-parent's map has no key twice, the merged map holds, for every participant, the
-- higher coordinates of the two parents, and the self-parent's if they are equal.
pub lookup-merge_ancestors :
    (la ola : CoordinatesMap) (q : String)
    → Distinct ola
    → lookup (merge_ancestors la ola) q ≡ higher (lookup la q) (lookup ola q)
unfolding merge_ancestors lookup
lookup-merge_ancestors la [] q h = refl
lookup-merge_ancestors la ((p, c) ∷ rest) q h =
    let IH =
      lookup-merge_ancestors (if is_below (lookup la p) c then insert la p c else la) rest q h.1 in
    elim (string_key.dec p q) [
      | yes same ↦
          let absent : lookup rest q ≡ none =
            subst (λ (t : String). lookup rest t ≡ none) same h.0 in
          rw (IH, step_lem la p q c, if_pos _ same, if_pos _ same, absent)
            (subst (λ (t : String). higher (lookup la p) (some c) ≡ higher (lookup la t) (some c))
              same refl)
      | no other ↦ rw (IH, step_lem la p q c, if_neg _ other, if_neg _ other) refl
    ]

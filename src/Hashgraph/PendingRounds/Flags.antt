-- ===== src/Hashgraph/PendingRounds/Flags.antt =====
-- `Set` and `Update`: they keep the order, and what they make of a round.
use babble.Base.{
  ℤ, ◌≡◌, ◌≢◌, ◌<ℤ◌, refl, ap, sym, ◌∙◌, subst, List, [], ◌∷◌, ◌++◌, map, GoMap, insert, lookup,
  Option, none, some, is_some, int_key, true, false, All, Distinct, insert-Distinct, arith,
  Option-cases, inl, inr, ℤ_discrete, if_pos, if_neg,
}
use babble.Hashgraph.PendingRounds.{
  PendingRound, PendingRoundsCache, insert_round, sort_into, values, queued, set_pending, mark,
  mark_found, update,
}
use mathlib.Core.List.{append-nil, append_assoc}
use babble.Hashgraph.PendingRounds.Order.{IsOrdered, IsIncreasing, sorted_items-IsIncreasing}

sort_into-append :
    (acc ps qs : List PendingRound) → sort_into acc (ps ++ qs) ≡ sort_into (sort_into acc ps) qs
sort_into-append acc [] qs = refl
sort_into-append acc (p ∷ ps) qs = sort_into-append (insert_round p acc) ps qs

-- a round that is above all others goes to the end
insert_round_last :
    (p : PendingRound) (qs : List PendingRound)
    → All (λ q. q.index <ℤ p.index) qs
    → insert_round p qs ≡ qs ++ p ∷ []
insert_round_last p [] h = refl
insert_round_last p (q ∷ qs) h = ground (arith, h.0, insert_round_last p qs h.1)

abbrev AllBelow : List PendingRound → List PendingRound → Type 0
AllBelow acc [] = Unit
AllBelow acc (p ∷ ps) = All (λ q. q.index <ℤ p.index) acc × AllBelow acc ps

sort_into_sorted :
    (acc ps : List PendingRound) → IsIncreasing ps → AllBelow acc ps → sort_into acc ps ≡ acc ++ ps
sort_into_sorted acc [] s b = sym (append-nil acc)
sort_into_sorted acc (p ∷ ps) s b =
    rw
      (
        insert_round_last p acc b.0,
        sort_into_sorted (acc ++ p ∷ []) ps s.1 (below ps s.0 b.1),
        append_assoc,
      )
      refl
  where
    snoc :
        (q : PendingRound) (xs : List PendingRound)
        → All (λ t. t.index <ℤ q.index) xs
        → p.index <ℤ q.index
        → All (λ t. t.index <ℤ q.index) (xs ++ p ∷ [])
    snoc q [] h l = (l, tt)
    snoc q (x ∷ xs) h l = (h.0, snoc q xs h.1 l)

    below :
        (qs : List PendingRound)
        → All (λ q. p.index <ℤ q.index) qs
        → AllBelow acc qs
        → AllBelow (acc ++ p ∷ []) qs
    below [] h k = tt
    below (q ∷ qs) h k = (snoc q acc k.0 h.0, below qs h.1 k.1)

none_below : (ps : List PendingRound) → AllBelow [] ps
none_below [] = tt
none_below (p ∷ ps) = (tt, none_below ps)

values-insert_new :
    (m : GoMap ℤ PendingRound) (j : ℤ) (p : PendingRound)
    → lookup m j ≡ none
    → values (insert m j p) ≡ values m ++ p ∷ []
unfolding lookup insert
values-insert_new [] j p h = refl
values-insert_new ((i, q) ∷ m) j p h = ground (arith, values-insert_new m j p)

insert-keyed :
    (m : GoMap ℤ PendingRound) (j : ℤ) (p : PendingRound)
    → p.index ≡ j
    → All (λ e. e.1.index ≡ e.0) m
    → All (λ e. e.1.index ≡ e.0) (insert m j p)
unfolding insert
insert-keyed [] j p e k = (e, tt)
insert-keyed ((i, q) ∷ m) j p e k = elim (ℤ_discrete i j) [
  | yes h ↦ rw (if_pos _ h) (e ∙ sym h, k.1)
  | no n ↦ rw (if_neg _ n) (k.0, insert-keyed m j p e k.1)
]

-- `Set` on a round that is not queued keeps a cache in order: the slice is the sorted rounds of the
-- map.
pub set_pending-IsOrdered :
    (c : PendingRoundsCache) (p : PendingRound)
    → IsOrdered c
    → queued c p.index ≡ false
    → IsOrdered (set_pending c p)
unfolding set_pending queued
set_pending-IsOrdered c p w h = record {
  coherent = rw (
    values-insert_new c.items p.index p (absent (lookup c.items p.index) h),
    sort_into-append [] c.sorted_items (p ∷ []),
    sort_into-append [] (values c.items) (p ∷ []),
    sort_into_sorted [] c.sorted_items (sorted_items-IsIncreasing c w) (none_below c.sorted_items),
    w.coherent,
  );
  keyed = insert-keyed c.items p.index p refl w.keyed;
  distinct = insert-Distinct c.items p.index p w.distinct;
}
  where
    absent : (o : Option PendingRound) → is_some o ≡ false → o ≡ none
    absent none e = refl
    absent (some v) e = cc

index-mark : (d : ℤ) (p : PendingRound) → (mark d p).index ≡ p.index
index-mark d p = ground arith

insert_round-mark :
    (d : ℤ) (p : PendingRound) (qs : List PendingRound)
    → insert_round (mark d p) (map (mark d) qs) ≡ map (mark d) (insert_round p qs)
insert_round-mark d p [] = refl
insert_round-mark d p (q ∷ qs) =
    ground (arith, index-mark d p, index-mark d q, insert_round-mark d p qs)

sort_into-mark :
    (d : ℤ) (acc ps : List PendingRound)
    → sort_into (map (mark d) acc) (map (mark d) ps) ≡ map (mark d) (sort_into acc ps)
sort_into-mark d acc [] = refl
sort_into-mark d acc (p ∷ ps) =
    ap (λ t. sort_into t (map (mark d) ps)) (insert_round-mark d p acc)
    ∙ sort_into-mark d (insert_round p acc) ps

mark_ne : (d : ℤ) (p : PendingRound) → p.index ≢ d → mark d p ≡ p
mark_ne d p h = ground arith

mark_eq : (d : ℤ) (p : PendingRound) → p.index ≡ d → mark d p ≡ record p { decided = true }
mark_eq d p h = ground arith

mark_other :
    (m : GoMap ℤ PendingRound) (d : ℤ)
    → lookup m d ≡ none
    → All (λ e. e.1.index ≡ e.0) m
    → map (mark d) (values m) ≡ values m
unfolding lookup
mark_other [] d h k = refl
mark_other ((j, q) ∷ m) d h k = elim (ℤ_discrete j d) [
  | yes e ↦ absurd (cc (h, rw (if_pos _ e) at h))
  | no n ↦ cc (mark_ne d q (λ e. n (sym k.0 ∙ e)), mark_other m d (rw (if_neg _ n) at h) k.1)
]

values-insert_marked :
    (m : GoMap ℤ PendingRound) (d : ℤ) (p : PendingRound)
    → lookup m d ≡ some p
    → All (λ e. e.1.index ≡ e.0) m
    → Distinct m
    → values (insert m d (record p { decided = true })) ≡ map (mark d) (values m)
unfolding lookup insert
values-insert_marked [] d p h k u = cc
values-insert_marked ((j, q) ∷ m) d p h k u = elim (ℤ_discrete j d) [
  | yes e ↦
      let both : some q ≡ some p = rw (if_pos _ e) at h in
      let same : q ≡ p = cc in
      let rest = mark_other m d (subst (λ t. lookup m t ≡ none) e u.0) k.1 in
      rw (if_pos _ e) (cc (same, rest, mark_eq d q (k.0 ∙ e)))
  | no n ↦
      let rest = values-insert_marked m d p (rw (if_neg _ n) at h) k.1 u.1 in
      rw (if_neg _ n) (cc (rest, mark_ne d q (λ e. n (sym k.0 ∙ e))))
]

keyed_at :
    (m : GoMap ℤ PendingRound) (d : ℤ) {p : PendingRound}
    → lookup m d ≡ some p
    → All (λ e. e.1.index ≡ e.0) m
    → p.index ≡ d
unfolding lookup
keyed_at [] d e k = cc
keyed_at ((j, q) ∷ m) d {p} e k = elim (ℤ_discrete j d) [
  | yes h ↦
      let both : some q ≡ some p = rw (if_pos _ h) at e in
      let same : q ≡ p = cc in subst (λ t. t.index ≡ d) same (k.0 ∙ h)
  | no n ↦ keyed_at m d (rw (if_neg _ n) at e) k.1
]

mark_found-IsOrdered :
    (c : PendingRoundsCache) (d : ℤ) → IsOrdered c → IsOrdered (mark_found (lookup c.items d) c d)
mark_found-IsOrdered c d w = elim (Option-cases (lookup c.items d)) [
  | inl e ↦ rw (e, mark_found) w
  | inr (p, e) ↦
      rw (e, mark_found)
        (record {
          coherent =
              rw (values-insert_marked c.items d p e w.keyed w.distinct, w.coherent)
                (sym (sort_into-mark d [] (values c.items)));
          keyed =
              insert-keyed c.items d (record p { decided = true }) (keyed_at c.items d e w.keyed)
                w.keyed;
          distinct = insert-Distinct c.items d _ w.distinct;
        })
]

-- `Update` keeps a cache in order: the slice is the sorted rounds of the map.
pub update-IsOrdered :
    (c : PendingRoundsCache) (ds : List ℤ) → IsOrdered c → IsOrdered (update c ds)
unfolding update
update-IsOrdered c [] w = w
update-IsOrdered c (d ∷ ds) w =
    update-IsOrdered (mark_found (lookup c.items d) c d) ds (mark_found-IsOrdered c d w)

-- ===== src/Hashgraph/PendingRounds/Replay.antt =====
-- The pending rounds as a function from a round to whether it is decided, after any sequence of calls.
use babble.Base.{
  ◌≡◌, refl, sym, ◌∙◌, ap, fun_ext, subst, ℤ, ℤ_discrete, List, [], ◌∷◌, GoMap, lookup, delete,
  lookup-insert, lookup-delete, int_key, Option, none, some, is_some, Option-cases, eqb_ℤ, if_pos,
  if_neg, if◌then◌else◌, ◌&&◌, ◌||◌, Bool, true, false, Bool-cases, inl, inr, arith, All, Distinct,
}
use babble.Hashgraph.PendingRounds.{
  PendingRound, PendingRoundsCache, new_pending_rounds_cache, insert_round, sort_into, values,
  queued, set_pending, ordered_pending_rounds, mark_found, update, delete_all, clean,
}
use babble.Hashgraph.PendingRounds.Order.{
  IsOrdered, IsIncreasing, new-IsOrdered, sorted_items-IsIncreasing, clean-IsOrdered,
}
use babble.Hashgraph.PendingRounds.Flags.{set_pending-IsOrdered, update-IsOrdered}

abbrev pub contains : List ℤ → ℤ → Bool
contains [] j = false
contains (i ∷ is) j = eqb_ℤ i j || contains is j

-- what is left of a map after some rounds are deleted
pub lookup-delete_all :
    (m : GoMap ℤ PendingRound) (xs : List ℤ) (j : ℤ)
    → lookup (delete_all m xs) j ≡ (if contains xs j then none else lookup m j)
lookup-delete_all m [] j = refl
lookup-delete_all m (x ∷ xs) j =
    ground (arith, lookup-delete_all (delete m x) xs j, lookup-delete m x j)

-- whether a round of a list is decided
abbrev pub flag_of : List PendingRound → ℤ → Option Bool
flag_of [] j = none
flag_of (p ∷ ps) j = if eqb_ℤ p.index j then some p.decided else flag_of ps j

-- the calls of the cache; a round is queued unless it is there already, as DivideRounds does
pub data Call : Type 0 where
  queue : PendingRound → Call
  decide : List ℤ → Call
  remove : List ℤ → Call

abbrev pub after : PendingRoundsCache → Call → PendingRoundsCache
after c (queue p) = if queued c p.index then c else set_pending c p
after c (decide ds) = update c ds
after c (remove ds) = clean c ds

abbrev pub after_all : PendingRoundsCache → List Call → PendingRoundsCache
after_all c [] = c
after_all c (call ∷ calls) = after_all (after c call) calls

-- the same calls, on a function
abbrev pub replayed : (ℤ → Option Bool) → Call → ℤ → Option Bool
replayed f (queue p) j =
    if is_some (f p.index) then f j else if eqb_ℤ p.index j then some p.decided else f j
replayed f (decide ds) j = if contains ds j && is_some (f j) then some true else f j
replayed f (remove ds) j = if contains ds j then none else f j

abbrev pub replay : (ℤ → Option Bool) → List Call → ℤ → Option Bool
replay f [] = f
replay f (call ∷ calls) = replay (replayed f call) calls

abbrev decided_in : Option PendingRound → Option Bool
decided_in none = none
decided_in (some p) = some p.decided

flag_of-insert_round :
    (p : PendingRound) (qs : List PendingRound) (j : ℤ)
    → flag_of qs p.index ≡ none
    → flag_of (insert_round p qs) j ≡ (if eqb_ℤ p.index j then some p.decided else flag_of qs j)
flag_of-insert_round p [] j h = refl
flag_of-insert_round p (q ∷ qs) j h = ground (arith, h, flag_of-insert_round p qs j)

flag_of-sort_into :
    (m : GoMap ℤ PendingRound) (acc : List PendingRound)
    → All (λ e. e.1.index ≡ e.0) m
    → Distinct m
    → ((k : ℤ) → is_some (lookup m k) ≡ true → flag_of acc k ≡ none)
    → (j : ℤ)
    → flag_of (sort_into acc (values m)) j
      ≡ (if is_some (lookup m j) then decided_in (lookup m j) else flag_of acc j)
unfolding lookup
flag_of-sort_into [] acc k d apart j = refl
flag_of-sort_into ((i, q) ∷ m) acc k d apart j =
    let free : flag_of acc q.index ≡ none = apart q.index (rw (if_pos _ (sym k.0)) refl) in
    let rest =
      flag_of-sort_into m (insert_round q acc) k.1 d.1
        (λ n there. ground (arith, there, d.0, k.0, flag_of-insert_round q acc n free, apart n))
        j in
    ground (arith, rest, k.0, d.0, flag_of-insert_round q acc j free)

-- what the map says of a round
abbrev view : PendingRoundsCache → ℤ → Option Bool
view c j = decided_in (lookup c.items j)

flag_of_lem :
    (c : PendingRoundsCache) (j : ℤ) → IsOrdered c → flag_of (ordered_pending_rounds c) j ≡ view c j
unfolding ordered_pending_rounds
flag_of_lem c j w =
    let sorted = flag_of-sort_into c.items [] w.keyed w.distinct (λ k there. refl) j in
    rw w.coherent (sorted ∙ there_or_not (lookup c.items j))
  where
    there_or_not :
        (o : Option PendingRound) → (if is_some o then decided_in o else none) ≡ decided_in o
    there_or_not none = refl
    there_or_not (some p) = refl

view-mark_found :
    (c : PendingRoundsCache) (d j : ℤ)
    → view (mark_found (lookup c.items d) c d) j
      ≡ (if eqb_ℤ d j && is_some (view c j) then some true else view c j)
view-mark_found c d j = elim (ℤ_discrete d j) [
  | yes same ↦
      subst
        (λ k.
          view (mark_found (lookup c.items d) c d) k
          ≡ (if eqb_ℤ d k && is_some (view c k) then some true else view c k))
        same (at_itself (lookup c.items d) refl)
  | no other ↦ elsewhere other (lookup c.items d)
]
  where
    at_itself :
        (o : Option PendingRound)
        → lookup c.items d ≡ o
        → decided_in (lookup (mark_found o c d).items d)
          ≡ (if eqb_ℤ d d && is_some (view c d) then some true else view c d)
    at_itself none e = rw e (ground arith)
    at_itself (some p) e = rw (lookup-insert, if_pos _ refl, e) (ground arith)

    elsewhere :
        (d ≡ j → ⊥)
        → (o : Option PendingRound)
        → decided_in (lookup (mark_found o c d).items j)
          ≡ (if eqb_ℤ d j && is_some (view c j) then some true else view c j)
    elsewhere other none = ground (arith, other)
    elsewhere other (some p) = rw (lookup-insert, if_neg _ other) (ground (arith, other))

view-update :
    (c : PendingRoundsCache) (ds : List ℤ) (j : ℤ)
    → view (update c ds) j ≡ (if contains ds j && is_some (view c j) then some true else view c j)
unfolding update
view-update c [] j = refl
view-update c (d ∷ ds) j =
    view-update (mark_found (lookup c.items d) c d) ds j ∙ rw (view-mark_found c d j) (ground arith)

view-after :
    (c : PendingRoundsCache) (call : Call) (j : ℤ)
    → view (after c call) j ≡ replayed (view c) call j
unfolding set_pending queued clean
view-after c (decide ds) j = view-update c ds j
view-after c (remove ds) j = rw (lookup-delete_all c.items ds j) (ground arith)
view-after c (queue p) j = elim (Option-cases (lookup c.items p.index)) [
  | inr (q, e) ↦ rw (after, e) refl
  | inl e ↦ rw (after, e) (rw lookup-insert (ground arith))
]

after-IsOrdered : (c : PendingRoundsCache) (call : Call) → IsOrdered c → IsOrdered (after c call)
after-IsOrdered c (decide ds) w = update-IsOrdered c ds w
after-IsOrdered c (remove ds) w = clean-IsOrdered c ds w
after-IsOrdered c (queue p) w = elim (Bool-cases (queued c p.index)) [
  | inl e ↦ rw (after, e) w
  | inr e ↦ rw (after, e) (set_pending-IsOrdered c p w e)
]

after_all-view :
    (c : PendingRoundsCache) (calls : List Call)
    → IsOrdered c
    → IsOrdered (after_all c calls) × (view (after_all c calls) ≡ replay (view c) calls)
after_all-view c [] w = (w, refl)
after_all-view c (call ∷ calls) w =
    let (in_order, same) = after_all-view (after c call) calls (after-IsOrdered c call w) in
    (in_order, same ∙ ap (λ f. replay f calls) (fun_ext (view-after c call)))

-- After any sequence of calls on a new cache, where a round is queued unless it is there, the rounds
-- that are handed out stand in strictly increasing order, and they are those that the same calls make
-- of the empty function: a round is there from when it is queued to when it is cleaned, and is decided
-- if it was when it was queued or has been updated since.
pub after_all-replay :
    (calls : List Call)
    → IsIncreasing (ordered_pending_rounds (after_all new_pending_rounds_cache calls))
      × ((j : ℤ)
          → flag_of (ordered_pending_rounds (after_all new_pending_rounds_cache calls)) j
            ≡ replay (λ _. none) calls j)
unfolding ordered_pending_rounds new_pending_rounds_cache lookup
after_all-replay calls =
    let c = after_all new_pending_rounds_cache calls in
    let (in_order, same) = after_all-view new_pending_rounds_cache calls new-IsOrdered in
    (
      sorted_items-IsIncreasing c in_order,
      λ j. flag_of_lem c j in_order ∙ ap (λ (f : ℤ → Option Bool). f j) same,
    )

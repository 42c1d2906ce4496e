-- ===== src/Hashgraph/PeerSetCache/Lookup.antt =====
-- Which peer-set a round has.
use babble.Base.{
  ℤ, ◌≡◌, ◌≤ℤ◌, ◌<ℤ◌, refl, subst, sym, List, [], ◌∷◌, lookup, Option, none, some, is_some, leb_ℤ,
  ltb_ℤ, ◌&&◌, int_key, true, arith, All, ◌⊎◌, Bool-cases, Option-cases, inl, inr,
}
use babble.Peers.PeerSet.{PeerSet}
use babble.Hashgraph.PeerSetCache.{
  PeerSetCache, get_peer_set, situate, found_at, before_or_among, get_unless, new_peer_set_cache,
}
use babble.Common.Errors.{ok}
use babble.Common.Exec.Total.{NoPanic}

abbrev pub IsSorted : List ℤ → Type 0
IsSorted [] = Unit
IsSorted (x ∷ xs) = All (λ y. x <ℤ y) xs × IsSorted xs

-- The rounds of the slice are in strictly increasing order, and each has its peer-set.
pub record IsIndexed (c : PeerSetCache) : Type 0 where
  pub sorted : IsSorted c.rounds
  pub present : All (λ r. is_some (lookup c.peer_sets r) ≡ true) c.rounds

pub new-IsIndexed : IsIndexed new_peer_set_cache
unfolding new_peer_set_cache
new-IsIndexed = record { sorted = tt; present = tt }

-- A round that is in force at another: none of the rounds lies after it and up to the other.
abbrev pub NoneBetween : ℤ → ℤ → List ℤ → Type 0
NoneBetween best round = All (λ s. (s ≤ℤ best) ⊎ (round <ℤ s))

pub situate_lem :
    (round r : ℤ) (rest : List ℤ)
    → r ≤ℤ round
    → IsSorted (r ∷ rest)
    → (situate round r rest ≤ℤ round) × NoneBetween (situate round r rest) round (r ∷ rest)
situate_lem round r [] h s = (h, (inl (omega arith), tt))
situate_lem round r (x ∷ xs) h s = elim (Bool-cases (leb_ℤ r round && ltb_ℤ round x)) [
  | inl e ↦
      at r (rw e) (h, (inl (omega arith), (inr (ground arith), later xs (ground arith) s.1.0)))
  | inr e ↦
      let x_le : x ≤ℤ round = ground arith in
      let (le, those) = situate_lem round x xs x_le s.1 in
      at (situate round x xs) (rw e) (le, (inl (ground (arith, s.0.0, those.0)), those))
]
  where
    at :
        (b : ℤ)
        → situate round r (x ∷ xs) ≡ b
        → (b ≤ℤ round) × NoneBetween b round (r ∷ x ∷ xs)
        → (situate round r (x ∷ xs) ≤ℤ round)
          × NoneBetween (situate round r (x ∷ xs)) round (r ∷ x ∷ xs)
    at b e = subst (λ t. (t ≤ℤ round) × NoneBetween t round (r ∷ x ∷ xs)) (sym e)

    later :
        (ys : List ℤ) → round <ℤ x → All (λ y. x <ℤ y) ys → All (λ y. (y ≤ℤ r) ⊎ (round <ℤ y)) ys
    later [] l a = tt
    later (y ∷ ys) l a = (inr (omega arith), later ys l a.1)

pub situate_present :
    (P : ℤ → Type 0) (round r : ℤ) (rest : List ℤ) → All P (r ∷ rest) → P (situate round r rest)
situate_present P round r [] h = h.0
situate_present P round r (x ∷ xs) h = elim (Bool-cases (leb_ℤ r round && ltb_ℤ round x)) [
  | inl e ↦ rw e h.0
  | inr e ↦ rw e (situate_present P round x xs h.1)
]

pub found :
    (o : Option PeerSet) → is_some o ≡ true → (ps : PeerSet) × (o ≡ some ps) × (found_at o ≡ ok ps)
found none h = absurd (ground arith)
found (some ps) h = (ps, refl, refl)

-- `Get` on a cache with a round always returns a peer-set: that of the last round which is not
-- after the given one, or that of the first round if all are after it.
pub get_peer_set_in_force :
    (c : PeerSetCache) (round first : ℤ) (rest : List ℤ)
    → IsIndexed c
    → c.rounds ≡ first ∷ rest
    → (best : ℤ) × (ps : PeerSet) × (get_peer_set c round ≡ ok ps)
      × (lookup c.peer_sets best ≡ some ps)
      × (((best ≤ℤ round) × NoneBetween best round (first ∷ rest))
          ⊎ ((best ≡ first) × (round <ℤ first)))
unfolding get_peer_set
get_peer_set_in_force c round first rest w e = elim (Option-cases (lookup c.peer_sets round)) [
  | inr (ps, hit) ↦
      (round, ps, rw (hit, get_unless), hit, inl (omega arith, compared (first ∷ rest)))
  | inl miss ↦
      rw (miss, get_unless, e, before_or_among)
        (elim (Bool-cases (ltb_ℤ round first)) [
          | inl before ↦
              let (ps, at, there) = found (lookup c.peer_sets first) present.0 in
              (first, ps, rw (before, there), at, inr (refl, ground arith))
          | inr among ↦
              let (ps, at, there) =
                found (lookup c.peer_sets (situate round first rest))
                  (situate_present _ round first rest present) in
              (
                situate round first rest,
                ps,
                rw (among, there),
                at,
                inl (situate_lem round first rest (ground arith) sorted),
              )
        ])
]
  where
    present : All (λ r. is_some (lookup c.peer_sets r) ≡ true) (first ∷ rest)
    present = subst (All (λ r. is_some (lookup c.peer_sets r) ≡ true)) e w.present

    sorted : IsSorted (first ∷ rest)
    sorted = subst IsSorted e w.sorted

    compared : (xs : List ℤ) → NoneBetween round round xs
    compared [] = tt
    compared (x ∷ xs) = (omega arith, compared xs)

-- Each round that the slice has is in the map, so `Get` does not follow a nil pointer.
pub get_peer_set-NoPanic :
    (c : PeerSetCache) (round : ℤ) → IsIndexed c → NoPanic (get_peer_set c round)
unfolding get_peer_set
get_peer_set-NoPanic c round w = by_rounds c.rounds refl
  where
    by_rounds : (rounds : List ℤ) → c.rounds ≡ rounds → NoPanic (get_peer_set c round)
    by_rounds (first ∷ rest) e =
        let (best, ps, same, at, more) = get_peer_set_in_force c round first rest w e in rw same tt
    by_rounds [] e = elim (Option-cases (lookup c.peer_sets round)) [
      | inr (ps, hit) ↦ rw (hit, get_unless) tt
      | inl miss ↦ rw (miss, get_unless, e, before_or_among) tt
    ]

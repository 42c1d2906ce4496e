-- ===== src/Hashgraph/PeerSetCache/Updates.antt =====
-- What `Set` changes, and what it leaves alone.
use babble.Base.{
  ℤ, ◌≡◌, ◌≢◌, ◌≤ℤ◌, ◌<ℤ◌, refl, subst, sym, List, [], ◌∷◌, lookup, insert, lookup-insert, none,
  is_some, ltb_ℤ, int_key, true, false, arith, All, Bool-cases, Option-cases, inl, inr, if_pos,
  if_neg,
}
use babble.Common.Errors.{ok, err, new_store_err, base, number, key_already_exists}
use babble.Common.Platform.{Platform}
use babble.Peers.Peer.{Peer}
use babble.Peers.PeerSet.{PeerSet}
use babble.Hashgraph.PeerSetCache.{
  PeerSetCache, set_peer_set, get_peer_set, insert_sorted, situate, note_peer, note_peers,
  before_or_among, get_unless,
}
use babble.Hashgraph.PeerSetCache.Lookup.{IsSorted, IsIndexed, situate_lem}

module _ ⦃platform : Platform⦄ where
  note_peers_keep :
      (c : PeerSetCache) (round : ℤ) (ps : List Peer)
      → ((note_peers c round ps).rounds ≡ c.rounds)
        × ((note_peers c round ps).peer_sets ≡ c.peer_sets)
  note_peers_keep c round [] = (refl, refl)
  note_peers_keep c round (p ∷ ps) = note_peers_keep (note_peer c round p) round ps

  -- What a `Set` that returns has changed of the rounds and the peer-sets.
  set_changes :
      (c : PeerSetCache) (round : ℤ) (ps : PeerSet) {d : PeerSetCache}
      → set_peer_set c round ps ≡ ok d
      → (d.rounds ≡ insert_sorted round c.rounds)
        × (d.peer_sets ≡ insert c.peer_sets round ps)
        × (lookup c.peer_sets round ≡ none)
  unfolding set_peer_set
  set_changes c round ps {d} h = elim (Option-cases (lookup c.peer_sets round)) [
    | inr (v, e) ↦ absurd (cc (e, h, rw e at h))
    | inl e ↦
        let c' : PeerSetCache = record c {
          peer_sets = insert c.peer_sets round ps;
          rounds = insert_sorted round c.rounds;
        } in
        let made : ok (note_peers c' round ps.peers) ≡ ok d = rw e at h in
        let (rounds, sets) = note_peers_keep c' round ps.peers in
        (cc (made, rounds), cc (made, sets), e)
  ]

-- After a `Set` that returned, another on the same round is refused.
pub set_peer_set_twice :
    ⦃platform : Platform⦄ (c : PeerSetCache) (round : ℤ) (ps qs : PeerSet) {d : PeerSetCache}
    → set_peer_set c round ps ≡ ok d
    → set_peer_set d round qs
      ≡ err (new_store_err (base "PeerSetCache") key_already_exists (number round))
unfolding set_peer_set
set_peer_set_twice c round ps qs {d} h =
    let (_, sets, _) = set_changes c round ps h in
    let here : is_some (lookup d.peer_sets round) ≡ true =
      rw (sets, lookup-insert, if_pos _ refl) refl in
    rw here

-- A round that is inserted stands in the slice; the slice stays sorted.
All-insert_sorted :
    (P : ℤ → Type 0) (r : ℤ) (xs : List ℤ) → P r → All P xs → All P (insert_sorted r xs)
All-insert_sorted P r [] p h = (p, tt)
All-insert_sorted P r (x ∷ xs) p h = elim (Bool-cases (ltb_ℤ r x)) [
  | inl e ↦ rw e (p, h)
  | inr e ↦ rw e (h.0, All-insert_sorted P r xs p h.1)
]

lt_of_ne : (x r : ℤ) → x ≢ r → ltb_ℤ r x ≡ false → x <ℤ r
lt_of_ne x r n e = ground arith

insert_sorted-IsSorted :
    (r : ℤ) (xs : List ℤ) → All (λ x. x ≢ r) xs → IsSorted xs → IsSorted (insert_sorted r xs)
insert_sorted-IsSorted r [] n s = (tt, tt)
insert_sorted-IsSorted r (x ∷ xs) n s = elim (Bool-cases (ltb_ℤ r x)) [
  | inl e ↦ rw e ((ground arith, after xs (ground arith) s.0), s)
  | inr e ↦ rw e (
    All-insert_sorted (λ y. x <ℤ y) r xs (lt_of_ne x r n.0 e) s.0,
    insert_sorted-IsSorted r xs n.1 s.1,
  )
]
  where
    after : (ys : List ℤ) → r <ℤ x → All (λ y. x <ℤ y) ys → All (λ y. r <ℤ y) ys
    after [] l a = tt
    after (y ∷ ys) l a = (omega arith, after ys l a.1)

-- A `Set` that returns keeps the rounds sorted, each with its peer-set.
pub set_peer_set-IsIndexed :
    ⦃platform : Platform⦄ (c : PeerSetCache) (round : ℤ) (ps : PeerSet) {d : PeerSetCache}
    → IsIndexed c
    → set_peer_set c round ps ≡ ok d
    → IsIndexed d
set_peer_set-IsIndexed c round ps {d} w h =
    let (rounds, sets, free) = set_changes c round ps h in
    record {
      sorted =
          rw rounds
            (insert_sorted-IsSorted round c.rounds (others c.rounds w.present free) w.sorted);
      present =
          rw (rounds, sets)
            (All-insert_sorted _ round c.rounds (rw (lookup-insert, if_pos _ refl) refl)
              (still c.rounds w.present));
    }
  where
    others :
        (xs : List ℤ)
        → All (λ r. is_some (lookup c.peer_sets r) ≡ true) xs
        → lookup c.peer_sets round ≡ none
        → All (λ x. x ≢ round) xs
    others [] a free = tt
    others (x ∷ xs) a free = (
      λ e. cc (subst (λ t. is_some (lookup c.peer_sets t) ≡ true) e a.0, free),
      others xs a.1 free,
    )

    still :
        (xs : List ℤ)
        → All (λ r. is_some (lookup c.peer_sets r) ≡ true) xs
        → All (λ r. is_some (lookup (insert c.peer_sets round ps) r) ≡ true) xs
    still [] a = tt
    still (x ∷ xs) a = (rw lookup-insert (ground (arith, a.0)), still xs a.1)

-- A later round in the slice does not change where an earlier one is situated.
situate-insert_sorted :
    (q round r : ℤ) (rest : List ℤ)
    → r ≤ℤ q
    → q <ℤ round
    → IsSorted (r ∷ rest)
    → situate q r (insert_sorted round rest) ≡ situate q r rest
situate-insert_sorted q round r [] lo hi s = ground arith
situate-insert_sorted q round r (x ∷ xs) lo hi s =
    ground (arith, s.0.0, λ (p : x ≤ℤ q). situate-insert_sorted q round x xs p hi s.1)

-- A peer-set for a later round changes no round before it: whatever consensus decided there with
-- the old peer-sets stays as it was.
pub get_peer_set-set_later :
    ⦃platform : Platform⦄ (c : PeerSetCache) (round q first : ℤ) (rest : List ℤ) (ps : PeerSet)
    {d : PeerSetCache}
    → IsIndexed c
    → c.rounds ≡ first ∷ rest
    → first ≤ℤ q
    → q <ℤ round
    → set_peer_set c round ps ≡ ok d
    → get_peer_set d q ≡ get_peer_set c q
unfolding get_peer_set
get_peer_set-set_later c round q first rest ps {d} w e lo hi h =
    let (rounds, sets, free) = set_changes c round ps h in
    let same = λ (r : ℤ) (le : r ≤ℤ q). keeps r le sets in
    elim (Option-cases (lookup c.peer_sets q)) [
      | inr (v, here) ↦ rw (same q (omega arith), here, get_unless) refl
      | inl miss ↦
          let sorted = subst IsSorted e w.sorted in
          let place = situate-insert_sorted q round first rest lo hi sorted in
          let there = same (situate q first rest) (situate_lem q first rest lo sorted).0 in
          rw (same q (omega arith), miss, get_unless, rounds, e, inserted, before_or_among)
            (elim (Bool-cases (ltb_ℤ q first)) [
              | inl no_ ↦ absurd (ground arith)
              | inr in_ ↦ rw (in_, place, there)
            ])
    ]
  where
    apart : (r : ℤ) → r ≤ℤ q → round ≢ r
    apart r le t = let l : round ≤ℤ q = subst (λ u. u ≤ℤ q) (sym t) le in absurd (omega arith)

    keeps :
        (r : ℤ)
        → r ≤ℤ q
        → d.peer_sets ≡ insert c.peer_sets round ps
        → lookup d.peer_sets r ≡ lookup c.peer_sets r
    keeps r le sets = rw (sets, lookup-insert, if_neg _ (apart r le)) refl

    inserted : insert_sorted round (first ∷ rest) ≡ first ∷ insert_sorted round rest
    inserted = ground arith

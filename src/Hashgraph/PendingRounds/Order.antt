-- ===== src/Hashgraph/PendingRounds/Order.antt =====
-- The slice holds the rounds of the map in increasing order, after every operation.
use babble.Base.{
  ℤ, ◌≡◌, ◌≢◌, ◌<ℤ◌, refl, sym, List, [], ◌∷◌, GoMap, lookup, delete, none, ltb_ℤ, int_key, false,
  All, Distinct, delete-Distinct, arith, Bool-cases, inl, inr, ℤ_discrete, if_pos, if_neg,
}
use babble.Hashgraph.PendingRounds.{
  PendingRound, PendingRoundsCache, new_pending_rounds_cache, insert_round, sort_into, sort_rounds,
  values, delete_all, clean,
}

-- strictly increasing indexes
abbrev pub IsIncreasing : List PendingRound → Type 0
IsIncreasing [] = Unit
IsIncreasing (p ∷ ps) = All (λ q. p.index <ℤ q.index) ps × IsIncreasing ps

pub record IsOrdered (c : PendingRoundsCache) : Type 0 where
  pub coherent : c.sorted_items ≡ sort_rounds (values c.items)
  pub keyed : All (λ e. e.1.index ≡ e.0) c.items
  pub distinct : Distinct c.items

abbrev Apart : PendingRound → PendingRound → Type 0
Apart p q = q.index ≢ p.index

All-insert_round :
    (P : PendingRound → Type 0) (p : PendingRound) (qs : List PendingRound)
    → P p
    → All P qs
    → All P (insert_round p qs)
All-insert_round P p [] h k = (h, tt)
All-insert_round P p (q ∷ qs) h k = elim (Bool-cases (ltb_ℤ p.index q.index)) [
  | inl e ↦ rw e (h, k)
  | inr e ↦ rw e (k.0, All-insert_round P p qs h k.1)
]

lt_of_ne : (x r : ℤ) → x ≢ r → ltb_ℤ r x ≡ false → x <ℤ r
lt_of_ne x r n e = ground arith

insert_round-IsIncreasing :
    (p : PendingRound) (qs : List PendingRound)
    → All (Apart p) qs
    → IsIncreasing qs
    → IsIncreasing (insert_round p qs)
insert_round-IsIncreasing p [] a s = (tt, tt)
insert_round-IsIncreasing p (q ∷ qs) a s = elim (Bool-cases (ltb_ℤ p.index q.index)) [
  | inl e ↦ rw e ((ground arith, after qs (ground arith) s.0), s)
  | inr e ↦ rw e (
    All-insert_round (λ t. q.index <ℤ t.index) p qs (lt_of_ne q.index p.index a.0 e) s.0,
    insert_round-IsIncreasing p qs a.1 s.1,
  )
]
  where
    after :
        (ts : List PendingRound)
        → p.index <ℤ q.index
        → All (λ t. q.index <ℤ t.index) ts
        → All (λ t. p.index <ℤ t.index) ts
    after [] l h = tt
    after (t ∷ ts) l h = (omega arith, after ts l h.1)

-- Rounds whose indexes differ from one another and from those that are sorted already.
abbrev AllApart : List PendingRound → List PendingRound → Type 0
AllApart acc [] = Unit
AllApart acc (p ∷ ps) = All (Apart p) acc × All (Apart p) ps × AllApart acc ps

Apart-insert :
    (p : PendingRound) (acc ps : List PendingRound)
    → All (Apart p) ps
    → AllApart acc ps
    → AllApart (insert_round p acc) ps
Apart-insert p acc [] a h = tt
Apart-insert p acc (q ∷ qs) a h =
    (All-insert_round (Apart q) p acc (λ e. a.0 (sym e)) h.0, h.1, Apart-insert p acc qs a.1 h.2)

sort_into-IsIncreasing :
    (acc ps : List PendingRound)
    → IsIncreasing acc
    → AllApart acc ps
    → IsIncreasing (sort_into acc ps)
sort_into-IsIncreasing acc [] s a = s
sort_into-IsIncreasing acc (p ∷ ps) s a =
    sort_into-IsIncreasing (insert_round p acc) ps (insert_round-IsIncreasing p acc a.0 s)
      (Apart-insert p acc ps a.1 a.2)

values-Apart :
    (m : GoMap ℤ PendingRound) (p : PendingRound)
    → lookup m p.index ≡ none
    → All (λ e. e.1.index ≡ e.0) m
    → All (Apart p) (values m)
unfolding lookup
values-Apart [] p n k = tt
values-Apart ((j, q) ∷ m) p n k =
    (λ e. absurd (ground (arith, k.0, e)), values-Apart m p (ground (arith, n)) k.1)

values-AllApart :
    (m : GoMap ℤ PendingRound) → All (λ e. e.1.index ≡ e.0) m → Distinct m → AllApart [] (values m)
values-AllApart [] k d = tt
values-AllApart ((j, q) ∷ m) k d =
    (tt, values-Apart m q (rw k.0 d.0) k.1, values-AllApart m k.1 d.1)

-- The rounds that a cache in order hands out stand in strictly increasing order.
pub sorted_items-IsIncreasing : (c : PendingRoundsCache) → IsOrdered c → IsIncreasing c.sorted_items
sorted_items-IsIncreasing c w =
    rw w.coherent
      (sort_into-IsIncreasing [] (values c.items) tt (values-AllApart c.items w.keyed w.distinct))

pub new-IsOrdered : IsOrdered new_pending_rounds_cache
unfolding new_pending_rounds_cache
new-IsOrdered = record { coherent = refl; keyed = tt; distinct = tt }

delete-keyed :
    (m : GoMap ℤ PendingRound) (d : ℤ)
    → All (λ e. e.1.index ≡ e.0) m
    → All (λ e. e.1.index ≡ e.0) (delete m d)
unfolding delete
delete-keyed [] d k = tt
delete-keyed ((j, q) ∷ m) d k = elim (ℤ_discrete j d) [
  | yes e ↦ rw (if_pos _ e) (delete-keyed m d k.1)
  | no n ↦ rw (if_neg _ n) (k.0, delete-keyed m d k.1)
]

delete_all_keeps :
    (m : GoMap ℤ PendingRound) (ds : List ℤ)
    → All (λ e. e.1.index ≡ e.0) m × Distinct m
    → All (λ e. e.1.index ≡ e.0) (delete_all m ds) × Distinct (delete_all m ds)
delete_all_keeps m [] h = h
delete_all_keeps m (d ∷ ds) h =
    delete_all_keeps (delete m d) ds (delete-keyed m d h.0, delete-Distinct m d h.1)

-- `Clean` keeps a cache in order: the slice is the sorted rounds of the map.
pub clean-IsOrdered : (c : PendingRoundsCache) (ds : List ℤ) → IsOrdered c → IsOrdered (clean c ds)
unfolding clean
clean-IsOrdered c ds w =
    let (k, d) = delete_all_keeps c.items ds (w.keyed, w.distinct) in
    record { coherent = refl; keyed = k; distinct = d }

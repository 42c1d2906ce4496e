-- ===== src/Common/Median/Middle.antt =====
-- Where the median of an odd number of timestamps lies.
use babble.Base.{
  count, ℕ, zero, suc, ◌+◌, ◌*◌, ◌/◌, ◌%◌, ◌<◌, ◌≤◌, ◌≡◌, refl, ℤ, ◌≤ℤ◌, leb_ℤ, Bool, List, [], ◌∷◌,
  length, All, if◌then◌else◌, arith, Bool-cases, inl, inr,
}
use babble.Common.Median.{insert_number, sort_numbers, number_at, median}

-- increasing, repetitions allowed
abbrev pub IsSorted : List ℤ → Type 0
IsSorted [] = Unit
IsSorted (x ∷ xs) = All (λ y. x ≤ℤ y) xs × IsSorted xs

All-insert_number :
    (P : ℤ → Type 0) (x : ℤ) (ys : List ℤ) → P x → All P ys → All P (insert_number x ys)
All-insert_number P x [] p h = (p, tt)
All-insert_number P x (y ∷ ys) p h = elim (Bool-cases (leb_ℤ x y)) [
  | inl e ↦ rw e (p, h)
  | inr e ↦ rw e (h.0, All-insert_number P x ys p h.1)
]

All-above : (x y : ℤ) (ys : List ℤ) → x ≤ℤ y → All (λ z. y ≤ℤ z) ys → All (λ z. x ≤ℤ z) ys
All-above x y [] l h = tt
All-above x y (z ∷ zs) l h = (omega (arith, l, h.0), All-above x y zs l h.1)

insert_number-IsSorted : (x : ℤ) (ys : List ℤ) → IsSorted ys → IsSorted (insert_number x ys)
insert_number-IsSorted x [] h = (tt, tt)
insert_number-IsSorted x (y ∷ ys) h = elim (Bool-cases (leb_ℤ x y)) [
  | inl e ↦ let l : x ≤ℤ y = ground (arith, e) in rw e ((l, All-above x y ys l h.0), h)
  | inr e ↦
      let l : y ≤ℤ x = ground (arith, e) in
      rw e (All-insert_number (λ z. y ≤ℤ z) x ys l h.0, insert_number-IsSorted x ys h.1)
]

sort_numbers-IsSorted : (xs : List ℤ) → IsSorted (sort_numbers xs)
sort_numbers-IsSorted [] = tt
sort_numbers-IsSorted (x ∷ xs) =
    insert_number-IsSorted x (sort_numbers xs) (sort_numbers-IsSorted xs)

count-insert_number :
    (p : ℤ → Bool) (x : ℤ) (ys : List ℤ)
    → count p (insert_number x ys) ≡ (if p x then 1 else 0) + count p ys
count-insert_number p x [] = refl
count-insert_number p x (y ∷ ys) = ground (arith, count-insert_number p x ys)

count-sort_numbers : (p : ℤ → Bool) (xs : List ℤ) → count p (sort_numbers xs) ≡ count p xs
count-sort_numbers p [] = refl
count-sort_numbers p (x ∷ xs) =
    rw (count-insert_number p x (sort_numbers xs), count-sort_numbers p xs) refl

length-insert_number : (x : ℤ) (ys : List ℤ) → length (insert_number x ys) ≡ suc (length ys)
length-insert_number x [] = refl
length-insert_number x (y ∷ ys) = ground (arith, length-insert_number x ys)

length-sort_numbers : (xs : List ℤ) → length (sort_numbers xs) ≡ length xs
length-sort_numbers [] = refl
length-sort_numbers (x ∷ xs) =
    rw (length-insert_number x (sort_numbers xs), length-sort_numbers xs) refl

abbrev pub at_most : ℤ → ℤ → Bool
at_most m x = leb_ℤ x m

abbrev pub at_least : ℤ → ℤ → Bool
at_least m x = leb_ℤ m x

All-number_at :
    (P : ℤ → Type 0) (xs : List ℤ) (i : ℕ) → All P xs → i < length xs → P (number_at xs i)
All-number_at P [] i h l = elim l [ ]
All-number_at P (x ∷ xs) zero h l = h.0
All-number_at P (x ∷ xs) (suc i) h l = All-number_at P xs i h.1 (omega (arith, l))

count_above : (m : ℤ) (xs : List ℤ) → All (λ y. m ≤ℤ y) xs → count (at_least m) xs ≡ length xs
count_above m [] h = refl
count_above m (x ∷ xs) h = ground (arith, h.0, count_above m xs h.1)

below_lem :
    (s : List ℤ) (i : ℕ) → IsSorted s → i < length s → suc i ≤ count (at_most (number_at s i)) s
below_lem [] i h l = elim l [ ]
below_lem (x ∷ xs) zero h l = ground arith
below_lem (x ∷ xs) (suc i) h l =
    let there : i < length xs = omega (arith, l) in
    ground (arith, All-number_at (λ y. x ≤ℤ y) xs i h.0 there, below_lem xs i h.1 there)

above_lem :
    (s : List ℤ) (i : ℕ)
    → IsSorted s
    → i < length s
    → length s ≤ i + count (at_least (number_at s i)) s
above_lem [] i h l = elim l [ ]
above_lem (x ∷ xs) zero h l = ground (arith, count_above x xs h.0)
above_lem (x ∷ xs) (suc i) h l =
    let there : i < length xs = omega (arith, l) in ground (arith, above_lem xs i h.1 there)

median_lem :
    (xs : List ℤ) → length xs % 2 ≡ 1 → median xs ≡ number_at (sort_numbers xs) (length xs / 2)
unfolding median
median_lem xs h = rw (length-sort_numbers xs) (ground (arith, h))

-- The median of an odd number of timestamps is in the middle: more than half of them are not after
-- it, and more than half are not before it.
pub median_between :
    (xs : List ℤ)
    → length xs % 2 ≡ 1
    → (length xs < 2 * count (at_most (median xs)) xs)
      × (length xs < 2 * count (at_least (median xs)) xs)
median_between xs h =
    let s = sort_numbers xs in
    let m = number_at s (length xs / 2) in
    let inside : length xs / 2 < length s = omega (arith, length-sort_numbers xs, h) in
    let sorted = sort_numbers-IsSorted xs in
    rw (median_lem xs h) (
      omega (
        arith,
        h,
        length-sort_numbers xs,
        below_lem s (length xs / 2) sorted inside,
        count-sort_numbers (at_most m) xs,
      ),
      omega (
        arith,
        h,
        length-sort_numbers xs,
        above_lem s (length xs / 2) sorted inside,
        count-sort_numbers (at_least m) xs,
      ),
    )

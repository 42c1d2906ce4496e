-- ===== src/Common/Median.antt =====
-- src/common/median.go: the median of the timestamps of the famous witnesses of a round. The numbers
-- are 64-bit: the sum of the two in the middle wraps around, and the quotient drops the fraction.
pub mod Middle
pub mod Tests
use babble.Base.{
  ℕ, zero, suc, ◌+◌, ◌-◌, ◌/◌, ◌%◌, ◌^◌, ◌==◌, ℤ, pos, negsuc, ltb, leb_ℤ, ◌+ℤ◌, List, [], ◌∷◌,
  length, get_elem?, Option, some, none, if◌then◌else◌,
}

-- the order of a sorted copy
abbrev pub insert_number : ℤ → List ℤ → List ℤ
insert_number x [] = x ∷ []
insert_number x (y ∷ ys) = if leb_ℤ x y then x ∷ y ∷ ys else y ∷ insert_number x ys

abbrev pub sort_numbers : List ℤ → List ℤ
sort_numbers [] = []
sort_numbers (x ∷ xs) = insert_number x (sort_numbers xs)

-- a sum of two 64-bit numbers, as it is stored
abbrev pub as_signed : ℕ → ℤ
as_signed n = if ltb n (2 ^ 63) then pos n else negsuc (2 ^ 64 - n - 1)

unfoldable pub wrap_64 : ℤ → ℤ
wrap_64 (pos n) = as_signed (n % 2 ^ 64)
wrap_64 (negsuc n) = as_signed (2 ^ 64 - 1 - n % 2 ^ 64)

-- Go's quotient by two, towards zero
abbrev pub half : ℤ → ℤ
half (pos n) = pos (n / 2)
half (negsuc n) = if n == 0 then pos 0 else negsuc ((n + 1) / 2 - 1)

-- an index within the slice
abbrev pub number_at : List ℤ → ℕ → ℤ
number_at [] i = pos 0
number_at (x ∷ xs) zero = x
number_at (x ∷ xs) (suc i) = number_at xs i

unfoldable pub median : List ℤ → ℤ
median input =
    let s = sort_numbers input in
    let l = length s in
    if l == 0
    then pos 0
    else if l % 2 == 0
    then half (wrap_64 (number_at s (l / 2 - 1) +ℤ number_at s (l / 2 - 1 + 1)))
    else number_at s (l / 2)

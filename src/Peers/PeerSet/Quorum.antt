-- ===== src/Peers/PeerSet/Quorum.antt =====
-- The quorums of a peer-set: how many peers two of them share.
use babble.Base.{
  count, ℕ, ◌+◌, ◌*◌, ◌≤◌, ◌<◌, ◌≡◌, refl, String, List, [], ◌∷◌, keys, length, Bool, ◌&&◌, arith,
}
use babble.Peers.PeerSet.{PeerSet, len, super_majority, trust_count}

pub count-le-length {ℓ} : {A : Type ℓ} (p : A → Bool) (xs : List A) → count p xs ≤ length xs
count-le-length p [] = omega arith
count-le-length p (x ∷ xs) = ground (arith, count-le-length p xs)

pub count_both {ℓ} :
    {A : Type ℓ} (p q : A → Bool) (xs : List A)
    → count p xs + count q xs ≤ length xs + count (λ x. p x && q x) xs
count_both p q [] = omega arith
count_both p q (x ∷ xs) = ground (arith, count_both p q xs)

length-keys : {A : Type 0} (m : List (String × A)) → length (keys m) ≡ length m
length-keys [] = refl
length-keys (e ∷ m) = omega (arith, length-keys m)

-- Any two groups of a strong majority of the peers share more than a third of them.
pub super_majorities_meet :
    (ps : PeerSet) (p q : String → Bool)
    → super_majority ps ≤ count p (keys ps.by_pub_key)
    → super_majority ps ≤ count q (keys ps.by_pub_key)
    → len ps < 3 * count (λ k. p k && q k) (keys ps.by_pub_key)
unfolding super_majority len
super_majorities_meet ps p q h k =
    omega (arith, count_both p q (keys ps.by_pub_key), length-keys ps.by_pub_key)

-- A strong majority is reached on one side at most.
pub super_majority_unique :
    (ps : PeerSet) (yays nays : ℕ)
    → yays + nays ≤ len ps
    → super_majority ps ≤ yays
    → nays < super_majority ps
unfolding super_majority len
super_majority_unique ps yays nays h k = omega arith

-- With two peers or more, the trust count is a third of the peers, rounded up.
pub trust_count_bounds :
    (ps : PeerSet)
    → 1 < length ps.peers
    → (len ps ≤ 3 * trust_count ps) × (3 * trust_count ps ≤ len ps + 2)
unfolding trust_count
trust_count_bounds ps h = ground arith

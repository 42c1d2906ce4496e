-- ===== src/Hashgraph/Anchor/Sound.antt =====
-- What CheckBlock accepts.
use babble.Base.{
  count, ℕ, ◌+◌, ◌<◌, ◌≡◌, refl, List, [], ◌∷◌, is_some, lookup, if◌then◌else◌, Bool, true, false,
  Bool-cases, inl, inr, arith, string_key, ◌&&◌,
}
use babble.Common.Errors.{Error, Result, ok, err, panic}
use babble.Common.Platform.{Platform, Bytes}
use babble.Peers.PeerSet.{PeerSet, trust_count}
use babble.Hashgraph.Event.{BlockSignature}
use babble.Hashgraph.SigPool.{validator_hex}
use babble.Hashgraph.Crypto.{Crypto}
use babble.Hashgraph.Block.{Block, peers_hash, get_signatures, verify_signature}
use babble.Hashgraph.Anchor.{check_block, count_valid, count_if, verified, enough, same_bytes}

abbrev pub is_yes : Result Bool → Bool
is_yes (ok true) = true
is_yes _ = false

same_bytes_lem : (xs ys : Bytes) → same_bytes xs ys ≡ true → xs ≡ ys
same_bytes_lem [] [] h = refl
same_bytes_lem [] (y ∷ ys) h = cc
same_bytes_lem (x ∷ xs) [] h = cc
same_bytes_lem (x ∷ xs) (y ∷ ys) h = ground (arith, same_bytes_lem xs ys)

step_lem :
    (member : Bool) (v : Result Bool) (rest : Result ℕ) (n : ℕ)
    → (if member then count_if (verified v) rest else rest) ≡ ok n
    → (m : ℕ) × (rest ≡ ok m) × (n ≡ (if member && is_yes v then 1 else 0) + m)
step_lem false v rest n h = (n, h, omega arith)
step_lem true (ok true) (ok m) n h = (m, refl, ground arith)
step_lem true (ok true) (err e) n h = cc
step_lem true (ok true) panic n h = cc
step_lem true (ok false) rest n h = (n, h, omega arith)
step_lem true (err e) rest n h = (n, h, omega arith)
step_lem true panic rest n h = cc

enough_lem :
    (r : Result ℕ) (trust : ℕ) → enough r trust ≡ ok tt → (n : ℕ) × (r ≡ ok n) × (trust < n)
enough_lem (ok n) trust h = (n, refl, ground arith)
enough_lem (err e) trust h = cc
enough_lem panic trust h = cc

err_ok : {A : Type 0} {e : Error} {a : A} → err e ≡ ok a → ⊥
err_ok h = cc

module _ ⦃platform : Platform⦄ ⦃crypto : Crypto⦄ (b : Block) (ps : PeerSet) where
  -- a signature that is by a peer of the peer-set and verifies against the block
  abbrev pub is_valid : BlockSignature → Bool
  is_valid s = is_some (lookup ps.by_pub_key (validator_hex s)) && is_yes (verify_signature b s)

  count_valid_lem :
      (sigs : List BlockSignature) (n : ℕ) → count_valid b ps sigs ≡ ok n → n ≡ count is_valid sigs
  count_valid_lem [] n h = ground arith
  count_valid_lem (s ∷ sigs) n h =
      let (m, e, sum) =
        step_lem (is_some (lookup ps.by_pub_key (validator_hex s))) (verify_signature b s)
          (count_valid b ps sigs) n h in
      rw (← count_valid_lem sigs m e) sum

  -- A block that is accepted names the hash of the peer-set, and more of its signatures than the
  -- trust count are by peers of the set and verify.
  pub check_block_sound :
      check_block b ps ≡ ok tt
      → (peers_hash ps ≡ b.body.peers_hash) × (trust_count ps < count is_valid (get_signatures b))
  unfolding check_block
  check_block_sound h = elim (Bool-cases (same_bytes (peers_hash ps) b.body.peers_hash)) [
    | inl e ↦
        let (n, counted, more) =
          enough_lem (count_valid b ps (get_signatures b)) (trust_count ps) (rw e at h) in
        (same_bytes_lem _ _ e, rw (← count_valid_lem (get_signatures b) n counted) more)
    | inr e ↦ elim (err_ok (rw e at h)) [ ]
  ]

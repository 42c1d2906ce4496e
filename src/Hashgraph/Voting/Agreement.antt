-- ===== src/Hashgraph/Voting/Agreement.antt =====
-- The witnesses of a round agree on a fame that one of them decides.
use babble.Base.{
  count, ℕ, ◌+◌, ◌≤◌, ◌<◌, ◌≡◌, refl, String, List, [], ◌∷◌, length, not, some, none, if◌then◌else◌,
  ◌==◌, ◌%◌, Bool, true, false, arith, All, Bool-cases, inl, inr,
}
use babble.Common.Sublist.{Sublist, count-Sublist, All-Sublist}
use babble.Common.Platform.{Platform}
use babble.Peers.PeerSet.{PeerSet, len, super_majority}
use babble.Hashgraph.Voting.{
  Votes, vote_of, count_votes, majority, vote, normal_vote, coin_round_freq,
}

-- a vote that decides has a super-majority
decides_lem :
    (ps : PeerSet) (n m : ℕ) (b : Bool)
    → (normal_vote ps (majority (n, m))).1 ≡ some b
    → super_majority ps ≤ (if b then n else m)
unfolding majority
decides_lem ps n m true e = ground (arith, e)
decides_lem ps n m false e = ground (arith, e)

-- the side with more votes
majority_lem :
    (n m : ℕ) (b : Bool) → (b ≡ true → m ≤ n) → (b ≡ false → n < m) → (majority (n, m)).0 ≡ b
unfolding majority
majority_lem n m true p q = ground (arith, p refl)
majority_lem n m false p q = ground (arith, q refl)

module _ (votes : Votes) (x : String) where
  abbrev pub yays : List String → ℕ
  yays = count (λ w. vote_of votes w x)

  abbrev pub nays : List String → ℕ
  nays = count (λ w. not (vote_of votes w x))

  count_votes_lem : (ws : List String) → count_votes votes x ws ≡ (yays ws, nays ws)
  unfolding count_votes
  count_votes_lem [] = refl
  count_votes_lem (w ∷ ws) = ground (arith, count_votes_lem ws)

  all_counted : (ws : List String) → yays ws + nays ws ≡ length ws
  all_counted [] = omega arith
  all_counted (w ∷ ws) = ground (arith, all_counted ws)

  module _ ⦃platform : Platform⦄ (ps : PeerSet) (ws : List String) where
    decided_lem :
        (diff : ℕ) (y : String) (seen : List String) (b : Bool)
        → Sublist seen ws
        → (vote diff ps y votes x seen).1 ≡ some b
        → (diff % coin_round_freq == 0 ≡ false)
          × (super_majority ps ≤ (if b then yays ws else nays ws))
    unfolding vote
    decided_lem diff y seen b sub e = elim (Bool-cases (diff % coin_round_freq == 0)) [
      | inl coin ↦ let no : none ≡ some b = rw coin at e in absurd (cc no)
      | inr normal ↦
          let decides =
            decides_lem ps (yays seen) (nays seen) b (rw (normal, count_votes_lem seen) at e) in
          (
            normal,
            ground (
              arith,
              decides,
              count-Sublist (λ w. vote_of votes w x) sub,
              count-Sublist (λ w. not (vote_of votes w x)) sub,
            ),
          )
    ]

    -- If a witness decides a fame by the votes of the witnesses of the round before, which are not
    -- more than the peers, then every other witness of its round that strongly sees a super-majority
    -- of those witnesses votes the same.
    pub decided_vote_prevails :
        (diff : ℕ) (y z : String) (seen others : List String) (b : Bool)
        → length ws ≤ len ps
        → Sublist seen ws
        → Sublist others ws
        → (vote diff ps y votes x seen).1 ≡ some b
        → super_majority ps ≤ length others
        → (vote diff ps z votes x others).0 ≡ b
    unfolding vote super_majority len
    decided_vote_prevails diff y z seen others b few sub sub' e enough =
        let (normal, decided) = decided_lem diff y seen b sub e in
        let most_yes = count-Sublist (λ w. vote_of votes w x) sub' in
        let most_no = count-Sublist (λ w. not (vote_of votes w x)) sub' in
        let total = all_counted ws in
        let total' = all_counted others in
        rw (normal, count_votes_lem others)
          (majority_lem (yays others) (nays others) b
            (λ p. ground (arith, p, decided, most_yes, most_no, total, total', few, enough))
            (λ p. ground (arith, p, decided, most_yes, most_no, total, total', few, enough)))

    unanimous_lem :
        (b : Bool) (seen : List String)
        → All (λ w. vote_of votes w x ≡ b) seen
        → (yays seen ≡ (if b then length seen else 0))
          × (nays seen ≡ (if b then 0 else length seen))
    unanimous_lem b [] h = ground arith
    unanimous_lem b (w ∷ seen) h = ground (arith, h.0, unanimous_lem b seen h.1)

    -- Where all witnesses of a round vote the same, a witness of the next round that strongly sees a
    -- super-majority of them votes that too, in a coin round as well; and it decides, unless its round
    -- is a coin round.
    pub unanimous_vote_decides :
        (diff : ℕ) (y : String) (seen : List String) (b : Bool)
        → All (λ w. vote_of votes w x ≡ b) ws
        → Sublist seen ws
        → super_majority ps ≤ length seen
        → vote diff ps y votes x seen ≡ (b, if diff % coin_round_freq == 0 then none else some b)
    unfolding vote majority super_majority
    unanimous_vote_decides diff y seen b agreed sub enough =
        let (yeas, nos) = unanimous_lem b seen (All-Sublist _ sub agreed) in
        rw (count_votes_lem seen) (ground (arith, yeas, nos, enough))

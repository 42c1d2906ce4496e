-- ===== src/Hashgraph/Voting/Quiet.antt =====
-- The votes only change the caches and the rounds of the store.
use babble.Base.{
  ℕ, zero, suc, ◌==◌, ℤ, pos, pos_part, ◌+ℤ◌, ◌-ℤ◌, refl, String, List, [], ◌∷◌, Option, none, some,
  Bool, true, false,
}
use babble.Common.Errors.{ok}
use babble.Common.Exec.{Exec, gets, modify}
use babble.Common.Platform.{Platform}
use babble.Peers.PeerSet.{PeerSet}
use babble.Hashgraph.Crypto.{Crypto}
use babble.Hashgraph.RoundInfo.{RoundInfo, witnesses, is_decided, set_fame, witnesses_decided}
use babble.Hashgraph.PendingRounds.{PendingRound}
use babble.Hashgraph.InmemStore.{get_round, set_round_info}
use babble.Hashgraph.State.{Hashgraph, on_store}
use babble.Hashgraph.State.Quiet.{
  IsQuiet, make-IsQuiet, read-IsQuiet, on_store-IsQuiet, bind-IsQuiet,
}
use babble.Hashgraph.Ancestry.{see}
use babble.Hashgraph.Rounds.{peer_set_at, strongly_seen}
use babble.Hashgraph.Rounds.Quiet.{see-IsQuiet, peer_set_at-IsQuiet, strongly_seen-IsQuiet}
use babble.Hashgraph.Voting.{
  Votes, write_round, cast_vote, until_decided, cast_votes, vote_rounds, keep_fame, decide_witness,
  decide_witnesses, decide_round, decide_rounds,
}

module _ ⦃platform : Platform⦄ ⦃crypto : Crypto⦄ where
  cast_vote-IsQuiet :
      (b : Bool) (j : ℤ) (diff : ℕ) (ps : PeerSet) (x y : String) (votes : Votes)
      → IsQuiet (cast_vote b j diff ps x y votes)
  cast_vote-IsQuiet true j diff ps x y votes =
      bind-IsQuiet (see y x) _ (see-IsQuiet y x) (λ ycx. read-IsQuiet _)
  cast_vote-IsQuiet false j diff ps x y votes =
      bind-IsQuiet (on_store (get_round (j -ℤ pos 1))) _ (on_store-IsQuiet (get_round (j -ℤ pos 1)))
        (λ previous.
          bind-IsQuiet (peer_set_at (j -ℤ pos 1)) _ (peer_set_at-IsQuiet (j -ℤ pos 1)) (λ peers.
            bind-IsQuiet (strongly_seen y (witnesses previous) peers) _
              (strongly_seen-IsQuiet y (witnesses previous) peers) (λ seen. read-IsQuiet _)))

  until_decided-IsQuiet :
      (r : Votes × Option Bool) (go : Votes → Exec Hashgraph (Votes × Option Bool))
      → ((v : Votes) → IsQuiet (go v))
      → IsQuiet (until_decided r go)
  until_decided-IsQuiet (votes, some v) go t = read-IsQuiet _
  until_decided-IsQuiet (votes, none) go t = t votes

  cast_votes-IsQuiet :
      (j : ℤ) (diff : ℕ) (ps : PeerSet) (x : String) (ys : List String) (votes : Votes)
      → IsQuiet (cast_votes j diff ps x ys votes)
  unfolding cast_votes
  cast_votes-IsQuiet j diff ps x [] votes = read-IsQuiet _
  cast_votes-IsQuiet j diff ps x (y ∷ ys) votes =
      bind-IsQuiet (cast_vote (diff == 1) j diff ps x y votes) _
        (cast_vote-IsQuiet (diff == 1) j diff ps x y votes)
        (λ after.
          until_decided-IsQuiet after (cast_votes j diff ps x ys)
            (cast_votes-IsQuiet j diff ps x ys))

  vote_rounds-IsQuiet :
      (rounds : ℕ) (r : ℤ) (diff : ℕ) (x : String) (votes : Votes)
      → IsQuiet (vote_rounds rounds r diff x votes)
  unfolding vote_rounds
  vote_rounds-IsQuiet zero r diff x votes = read-IsQuiet _
  vote_rounds-IsQuiet (suc rounds) r diff x votes =
      bind-IsQuiet (on_store (get_round (r +ℤ pos diff))) _
        (on_store-IsQuiet (get_round (r +ℤ pos diff)))
        (λ info.
          bind-IsQuiet (peer_set_at (r +ℤ pos diff)) _ (peer_set_at-IsQuiet (r +ℤ pos diff)) (λ ps.
            bind-IsQuiet (cast_votes (r +ℤ pos diff) diff ps x (witnesses info) votes) _
              (cast_votes-IsQuiet (r +ℤ pos diff) diff ps x (witnesses info) votes)
              (λ after.
                until_decided-IsQuiet after (vote_rounds rounds r (suc diff) x)
                  (vote_rounds-IsQuiet rounds r (suc diff) x))))

  keep_fame-IsQuiet :
      (r : ℤ) (x : String) (info : RoundInfo) (result : Votes × Option Bool)
      → IsQuiet (keep_fame r x info result)
  keep_fame-IsQuiet r x info (votes, none) = read-IsQuiet _
  keep_fame-IsQuiet r x info (votes, some v) =
      bind-IsQuiet (modify (write_round r (set_fame info x v))) _ (make-IsQuiet _ (λ h. refl))
        (λ _. read-IsQuiet (λ _. ok (set_fame info x v, votes)))

  decide_witness-IsQuiet :
      (b : Bool) (r : ℤ) (x : String) (from : RoundInfo × Votes)
      → IsQuiet (decide_witness b r x from)
  decide_witness-IsQuiet true r x from = read-IsQuiet _
  decide_witness-IsQuiet false r x (info, votes) =
      bind-IsQuiet (gets (λ (h : Hashgraph). h.store.last_round)) _ (read-IsQuiet _) (λ last.
        bind-IsQuiet (vote_rounds (pos_part (last -ℤ r)) r 1 x votes) _
          (vote_rounds-IsQuiet (pos_part (last -ℤ r)) r 1 x votes)
          (λ result. keep_fame-IsQuiet r x info result))

  decide_witnesses-IsQuiet :
      (r : ℤ) (xs : List String) (from : RoundInfo × Votes) → IsQuiet (decide_witnesses r xs from)
  unfolding decide_witnesses
  decide_witnesses-IsQuiet r [] from = read-IsQuiet _
  decide_witnesses-IsQuiet r (x ∷ xs) from =
      bind-IsQuiet (decide_witness (is_decided from.0 x) r x from) _
        (decide_witness-IsQuiet (is_decided from.0 x) r x from)
        (λ next. decide_witnesses-IsQuiet r xs next)

  decide_round-IsQuiet : (p : PendingRound) (from : List ℤ × Votes) → IsQuiet (decide_round p from)
  unfolding decide_round
  decide_round-IsQuiet p (decided, votes) =
      bind-IsQuiet (on_store (get_round p.index)) _ (on_store-IsQuiet (get_round p.index)) (λ info.
        bind-IsQuiet (peer_set_at p.index) _ (peer_set_at-IsQuiet p.index) (λ ps.
          bind-IsQuiet (decide_witnesses p.index (witnesses info) (info, votes)) _
            (decide_witnesses-IsQuiet p.index (witnesses info) (info, votes))
            (λ result.
              bind-IsQuiet (on_store (set_round_info p.index (witnesses_decided result.0 ps).0)) _
                (on_store-IsQuiet (set_round_info p.index (witnesses_decided result.0 ps).0))
                (λ _. read-IsQuiet (λ _. ok _)))))

  pub decide_rounds-IsQuiet :
      (ps : List PendingRound) (from : List ℤ × Votes) → IsQuiet (decide_rounds ps from)
  unfolding decide_rounds
  decide_rounds-IsQuiet [] from = read-IsQuiet _
  decide_rounds-IsQuiet (p ∷ ps) from =
      bind-IsQuiet (decide_round p from) _ (decide_round-IsQuiet p from)
        (λ next. decide_rounds-IsQuiet ps next)

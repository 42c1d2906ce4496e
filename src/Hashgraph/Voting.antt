-- ===== src/Hashgraph/Voting.antt =====
-- src/hashgraph/hashgraph.go, DecideFame: the witnesses of later rounds vote on the fame of the
-- witnesses of the pending rounds. A cached round is written through its pointer when a fame is set,
-- so that it stays if an error ends the method.
pub mod Quiet
pub mod Tests
pub mod Sublists
pub mod Agreement
use babble.Base.{
  ℕ, zero, suc, ◌+◌, ◌/◌, ◌%◌, ◌==◌, ℤ, pos, pos_part, ◌+ℤ◌, ◌-ℤ◌, String, List, [], ◌∷◌, ◌++◌,
  GoMap, insert, lookup, length, get_elem?, Option, none, some, leb, if◌then◌else◌, Bool, true,
  false, string_key, int_key,
}
use babble.Common.Exec.{Exec, pure, gets, modify, ◌>>=◌, ◌>>◌}
use babble.Common.Platform.{Platform, Bytes}
use babble.Common.Lru
use babble.Peers.PeerSet.{PeerSet, super_majority}
use babble.Hashgraph.Crypto.{Crypto}
use babble.Hashgraph.RoundInfo.{RoundInfo, witnesses, is_decided, set_fame, witnesses_decided}
use babble.Hashgraph.PendingRounds.{PendingRound, ordered_pending_rounds, update}
use babble.Hashgraph.InmemStore.{get_round, set_round_info}
use babble.Hashgraph.State.{Hashgraph, on_store}
use babble.Hashgraph.Ancestry.{see}
use babble.Hashgraph.Rounds.{peer_set_at, strongly_seen}

-- votes[x][y], the vote of x on y
abbrev pub Votes : Type 0
Votes = GoMap String (GoMap String Bool)

abbrev pub or_no_votes : Option (GoMap String Bool) → GoMap String Bool
or_no_votes none = []
or_no_votes (some m) = m

abbrev pub or_false : Option Bool → Bool
or_false none = false
or_false (some v) = v

-- a vote that was not set reads as false
unfoldable pub vote_of : Votes → String → String → Bool
vote_of votes x y = or_false (lookup (or_no_votes (lookup votes x)) y)

unfoldable pub set_vote : Votes → String → String → Bool → Votes
set_vote votes x y vote = insert votes x (insert (or_no_votes (lookup votes x)) y vote)

-- the loop that counts the votes of some witnesses on x: yays and nays
unfoldable pub count_votes : Votes → String → List String → ℕ × ℕ
count_votes votes x [] = (0, 0)
count_votes votes x (w ∷ ws) =
    let (yays, nays) = count_votes votes x ws in
    if vote_of votes w x then (suc yays, nays) else (yays, suc nays)

-- the side with more votes, and how many; a tie is yes
unfoldable pub majority : ℕ × ℕ → Bool × ℕ
majority (yays, nays) = if leb nays yays then (true, yays) else (false, nays)

abbrev pub coin_round_freq : ℕ
coin_round_freq = 4

abbrev pub is_zero_byte : Option ℕ → Bool
is_zero_byte (some b) = b == 0
is_zero_byte none = false

-- `middleBit`: no only if there is a byte in the middle and it is zero
unfoldable pub middle_bit : ⦃platform : Platform⦄ → String → Bool
middle_bit ⦃platform⦄ ehex =
    let hash : Bytes = platform.decode_hex ehex in
    if is_zero_byte (get_elem? hash (length hash / 2)) then false else true

-- a voter's vote, and the fame if the vote decides it, outside coin rounds
abbrev pub normal_vote : PeerSet → Bool × ℕ → Bool × Option Bool
normal_vote ps (v, t) = (v, if leb (super_majority ps) t then some v else none)

module _ ⦃platform : Platform⦄ where
  abbrev pub coin_vote : PeerSet → String → Bool × ℕ → Bool × Option Bool
  coin_vote ps y (v, t) = ((if leb (super_majority ps) t then v else middle_bit y), none)

  -- the vote of y, `diff` rounds after x, by the witnesses that y strongly sees
  unfoldable pub vote : ℕ → PeerSet → String → Votes → String → List String → Bool × Option Bool
  vote diff ps y votes x seen =
      if diff % coin_round_freq == 0
      then coin_vote ps y (majority (count_votes votes x seen))
      else normal_vote ps (majority (count_votes votes x seen))

abbrev pub with_vote : Votes → String → String → Bool × Option Bool → Votes × Option Bool
with_vote votes y x (v, fame) = (set_vote votes y x v, fame)

-- PendingRounds.Update
abbrev pub mark_decided : List ℤ → Hashgraph → Hashgraph
mark_decided rounds h = record h { pending_rounds = update h.pending_rounds rounds }

-- a write to a cached round through its pointer
abbrev pub write_round : ℤ → RoundInfo → Hashgraph → Hashgraph
write_round r info h = record h {
  store = record (h.store) { round_cache = Lru.overwrite h.store.round_cache r info };
}

module _ ⦃platform : Platform⦄ ⦃crypto : Crypto⦄ where
  -- the vote of the witness y of the round j; the witnesses of the next round just see x or not
  abbrev pub cast_vote :
      Bool → ℤ → ℕ → PeerSet → String → String → Votes → Exec Hashgraph (Votes × Option Bool)
  cast_vote true j diff ps x y votes = do ycx ← see y x; pure (set_vote votes y x ycx, none)
  cast_vote false j diff ps x y votes = do
    previous ← on_store (get_round (j -ℤ pos 1))
    previous_peers ← peer_set_at (j -ℤ pos 1)
    seen ← strongly_seen y (witnesses previous) previous_peers
    pure (with_vote votes y x (vote diff ps y votes x seen))

  -- the loop over the witnesses of the round j, until one decides
  abbrev pub until_decided :
      Votes × Option Bool
      → (Votes → Exec Hashgraph (Votes × Option Bool))
      → Exec Hashgraph (Votes × Option Bool)
  until_decided (votes, some v) go = pure (votes, some v)
  until_decided (votes, none) go = go votes

  unfoldable pub cast_votes :
      ℤ → ℕ → PeerSet → String → List String → Votes → Exec Hashgraph (Votes × Option Bool)
  cast_votes j diff ps x [] votes = pure (votes, none)
  cast_votes j diff ps x (y ∷ ys) votes = do
    after ← cast_vote (diff == 1) j diff ps x y votes
    until_decided after (cast_votes j diff ps x ys)

  -- VOTE_LOOP, over so many rounds from `diff` rounds after the round of x
  unfoldable pub vote_rounds : ℕ → ℤ → ℕ → String → Votes → Exec Hashgraph (Votes × Option Bool)
  vote_rounds zero r diff x votes = pure (votes, none)
  vote_rounds (suc rounds) r diff x votes = do
    info ← on_store (get_round (r +ℤ pos diff))
    ps ← peer_set_at (r +ℤ pos diff)
    after ← cast_votes (r +ℤ pos diff) diff ps x (witnesses info) votes
    until_decided after (vote_rounds rounds r (suc diff) x)

  -- the fame that the votes decided, if they did
  abbrev pub keep_fame :
      ℤ → String → RoundInfo → Votes × Option Bool → Exec Hashgraph (RoundInfo × Votes)
  keep_fame r x info (votes, none) = pure (info, votes)
  keep_fame r x info (votes, some v) = do
    modify (write_round r (set_fame info x v))
    pure (set_fame info x v, votes)

  abbrev pub decide_witness :
      Bool → ℤ → String → RoundInfo × Votes → Exec Hashgraph (RoundInfo × Votes)
  decide_witness true r x at = pure at
  decide_witness false r x (info, votes) = do
    last ← gets (λ (h : Hashgraph). h.store.last_round)
    result ← vote_rounds (pos_part (last -ℤ r)) r 1 x votes
    keep_fame r x info result

  unfoldable pub decide_witnesses :
      ℤ → List String → RoundInfo × Votes → Exec Hashgraph (RoundInfo × Votes)
  decide_witnesses r [] at = pure at
  decide_witnesses r (x ∷ xs) at = do
    next ← decide_witness (is_decided at.0 x) r x at
    decide_witnesses r xs next

  -- one turn of the loop over the pending rounds: the decided rounds and the votes
  unfoldable pub decide_round : PendingRound → List ℤ × Votes → Exec Hashgraph (List ℤ × Votes)
  decide_round p (decided, votes) = do
    info ← on_store (get_round p.index)
    ps ← peer_set_at p.index
    result ← decide_witnesses p.index (witnesses info) (info, votes)
    let (marked, is_done) = witnesses_decided result.0 ps
    on_store (set_round_info p.index marked)
    pure ((if is_done then decided ++ p.index ∷ [] else decided), result.1)

  unfoldable pub decide_rounds :
      List PendingRound → List ℤ × Votes → Exec Hashgraph (List ℤ × Votes)
  decide_rounds [] at = pure at
  decide_rounds (p ∷ ps) at = do next ← decide_round p at; decide_rounds ps next

  unfoldable pub decide_fame : Exec Hashgraph (Unit {0})
  decide_fame = do
    pending ← gets (λ (h : Hashgraph). ordered_pending_rounds h.pending_rounds)
    result ← decide_rounds pending ([], [])
    modify (mark_decided result.0)

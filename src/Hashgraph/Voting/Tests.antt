-- ===== src/Hashgraph/Voting/Tests.antt =====
-- Runs of the votes.
use babble.Base.{
  ◌≡◌, refl, String, [], ◌∷◌, List, some, none, true, arith, String-discrete, Bool-cases, lookup,
  string_key, if◌then◌else◌, ◌==◌, ◌%◌,
}
use babble.Common.Sublist.{Sublist, done, keep}
use babble.Common.Platform.Sample.{sample_platform}
use babble.Peers.PeerSet.{super_majority, len}
use babble.Hashgraph.Voting.{Votes, vote, vote_of, count_votes, majority, coin_round_freq}
use babble.Hashgraph.Voting.Agreement.{decided_vote_prevails, unanimous_vote_decides}
use babble.Hashgraph.Sample.{three_peers}

abbrev voters : List String
voters = "w1" ∷ "w2" ∷ "w3" ∷ []

-- three votes for an event
abbrev three_yeas : Votes
three_yeas = ("w1", ("x", true) ∷ []) ∷ ("w2", ("x", true) ∷ []) ∷ ("w3", ("x", true) ∷ []) ∷ []

all_voters : Sublist voters voters
all_voters = keep "w1" (keep "w2" (keep "w3" done))

decided : (vote 2 three_peers "y" three_yeas "x" voters).1 ≡ some true
unfolding vote count_votes majority vote_of super_majority len lookup String-discrete Bool-cases
decided = refl

coin_round_keeps : vote 4 three_peers "0X02" three_yeas "x" voters ≡ (true, none)
unfolding vote count_votes majority vote_of super_majority len lookup String-discrete Bool-cases
coin_round_keeps = refl

decided_vote_prevails_example : (vote 2 three_peers "z" three_yeas "x" voters).0 ≡ true
unfolding super_majority len
decided_vote_prevails_example =
    decided_vote_prevails three_yeas "x" three_peers voters 2 "y" "z" voters voters true
      (omega arith) all_voters all_voters decided (omega arith)

unanimous_vote_decides_example :
    vote 3 three_peers "y" three_yeas "x" voters
    ≡ (true, if 3 % coin_round_freq == 0 then none else some true)
unfolding super_majority len vote_of lookup String-discrete Bool-cases
unanimous_vote_decides_example =
    unanimous_vote_decides three_yeas "x" three_peers voters 3 "y" voters true
      (refl, (refl, (refl, tt))) all_voters (omega arith)

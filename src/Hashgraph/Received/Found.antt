-- ===== src/Hashgraph/Received/Found.antt =====
-- What has happened when an event is received.
use babble.Base.{
  ◌≡◌, refl, ap, subst, ℕ, zero, suc, ℤ, pos, pos_part, ◌+ℤ◌, ◌-ℤ◌, ◌≤ℤ◌, ◌<ℤ◌, String, List, Bool,
  true, false, Bool-cases, inl, inr, arith,
}
use babble.Common.Errors.{Result, ok, err, panic}
use babble.Common.Exec.{Exec, pure, attempt, gets, modify}
use babble.Common.Exec.Inverse.{bind-inverse}
use babble.Common.Platform.{Platform}
use babble.Peers.PeerSet.{PeerSet}
use babble.Hashgraph.Crypto.{Crypto}
use babble.Hashgraph.RoundInfo.{RoundInfo, witnesses_decided, famous_witnesses}
use babble.Hashgraph.InmemStore.{get_round}
use babble.Hashgraph.State.{Hashgraph, on_store}
use babble.Hashgraph.Rounds.{peer_set_at, round}
use babble.Hashgraph.Voting.{write_round}
use babble.Hashgraph.Received.{
  is_below_round, is_received, that_see, receive, receive_or, skip_or_end, in_decided_round,
  in_round, find_round, decide_event,
}

above_next : (i j : ℤ) → i +ℤ pos 1 ≤ℤ j → i <ℤ j
unfolding ◌+ℤ◌
above_next i j h = ground (arith, h)

module _ ⦃platform : Platform⦄ ⦃crypto : Crypto⦄ where
  -- The round is decided, all its famous witnesses see the event and are a super-majority of its
  -- peer-set, and the last thing that was done is to write the event's round into the event and the
  -- event into the round.
  pub record Found (i : ℤ) (x : String) (g : Hashgraph) : Type 0 where
    pub before : RoundInfo
    pub info : RoundInfo
    pub peer_set : PeerSet
    pub decided : witnesses_decided before peer_set ≡ (info, true)
    pub looked_from : Hashgraph
    pub looked_to : Hashgraph
    pub seeing : List String
    pub seen : that_see x (famous_witnesses info) looked_from ≡ (ok seeing, looked_to)
    pub agreed : is_received peer_set (famous_witnesses info) seeing ≡ true
    pub written : receive i info x looked_to ≡ (ok tt, g)

  -- in some round from one on
  abbrev pub FoundFrom : ℤ → String → Hashgraph → Type 0
  FoundFrom i x g = (j : ℤ) × (i ≤ℤ j) × Found j x g

  later_FoundFrom :
      (i : ℤ) (x : String) (g : Hashgraph) → FoundFrom (i +ℤ pos 1) x g → FoundFrom i x g
  later_FoundFrom i x g (j, above, found) = (j, below (above_next i j above), found)
    where
      below : i <ℤ j → i ≤ℤ j
      below l = omega (arith, l)

  module _ (next : Exec Hashgraph Bool) (i : ℤ) (x : String) (g : Hashgraph)
      (go_on : (u : Hashgraph) → next u ≡ (ok true, g) → FoundFrom i x g) where
    skip_or_end-Found :
        (b : Bool) (u : Hashgraph) → skip_or_end b next u ≡ (ok true, g) → FoundFrom i x g
    skip_or_end-Found true u e = absurd cc
    skip_or_end-Found false u e = go_on u e

    in_decided_round-Found :
        (before : RoundInfo) (d : RoundInfo × Bool) (ps : PeerSet) (u : Hashgraph)
        → witnesses_decided before ps ≡ d
        → in_decided_round d ps next i x u ≡ (ok true, g)
        → FoundFrom i x g
    in_decided_round-Found before (info, false) ps u d e =
        let (bound, v, _, rest) =
          bind-inverse (gets (λ (h : Hashgraph). h.round_lower_bound))
            (λ bound. skip_or_end (is_below_round bound i) next) u g true e in
        skip_or_end-Found (is_below_round bound i) v rest
    in_decided_round-Found before (info, true) ps u d e =
        let (seeing, v, seen, rest) =
          bind-inverse (that_see x (famous_witnesses info))
            (λ seeing. receive_or (is_received ps (famous_witnesses info) seeing) next i info x) u g
            true e in
        elim (Bool-cases (is_received ps (famous_witnesses info) seeing)) [
          | inr no_majority ↦ go_on v (rw no_majority at rest)
          | inl agreed ↦
              let received = rw agreed at rest in
              let (_, w, written, last) =
                bind-inverse (receive i info x) (λ _. pure true) v g true received in
              let same : w ≡ g = ap (λ (p : Result Bool × Hashgraph). p.1) last in
              (
                i,
                omega arith,
                record {
                  before = before;
                  info = info;
                  peer_set = ps;
                  decided = d;
                  looked_from = u;
                  looked_to = v;
                  seeing = seeing;
                  seen = seen;
                  agreed = agreed;
                  written = subst (λ t. receive i info x v ≡ (ok tt, t)) same written;
                },
              )
        ]

    in_round-Found :
        (r : Result RoundInfo) (u : Hashgraph)
        → in_round r next i x u ≡ (ok true, g)
        → FoundFrom i x g
    in_round-Found (err a) u e = absurd cc
    in_round-Found panic u e = absurd cc
    in_round-Found (ok before) u e =
        let (ps, v, _, rest) = bind-inverse (peer_set_at i) _ u g true e in
        let (_, w, _, last) =
          bind-inverse (modify (write_round i (witnesses_decided before ps).0))
            (λ _. in_decided_round (witnesses_decided before ps) ps next i x) v g true rest in
        in_decided_round-Found before (witnesses_decided before ps) ps w refl last

  find_round-Found :
      (rounds : ℕ) (i : ℤ) (x : String) (h g : Hashgraph)
      → find_round rounds i x h ≡ (ok true, g)
      → FoundFrom i x g
  unfolding find_round
  find_round-Found zero i x h g e = absurd cc
  find_round-Found (suc rounds) i x h g e =
      let (r, u, _, rest) =
        bind-inverse (attempt (on_store (get_round i)))
          (λ r. in_round r (find_round rounds (i +ℤ pos 1) x) i x) h g true e in
      in_round-Found (find_round rounds (i +ℤ pos 1) x) i x g
        (λ v f. later_FoundFrom i x g (find_round-Found rounds (i +ℤ pos 1) x v g f)) r u rest

  -- An event that is received is so in a round above its own.
  pub record ReceivedIn (n : ℕ) (x : String) (h g : Hashgraph) : Type 0 where
    pub own : ℤ
    pub computed : (round n x h).0 ≡ ok own
    pub received : ℤ
    pub above : own <ℤ received
    pub found : Found received x g

  pub decide_event-ReceivedIn :
      (n : ℕ) (x : String) (h g : Hashgraph)
      → decide_event n x h ≡ (ok true, g)
      → ReceivedIn n x h g
  unfolding decide_event
  decide_event-ReceivedIn n x h g e =
      let (r, u, computed, rest) = bind-inverse (round n x) _ h g true e in
      let (last, v, _, searched) =
        bind-inverse (gets (λ (h : Hashgraph). h.store.last_round))
          (λ last. find_round (pos_part (last -ℤ r)) (r +ℤ pos 1) x) u g true rest in
      let (j, above, found) = find_round-Found (pos_part (last -ℤ r)) (r +ℤ pos 1) x v g searched in
      record {
        own = r;
        computed = ap (λ (p : Result ℤ × Hashgraph). p.0) computed;
        received = j;
        above = above_next r j above;
        found = found;
      }

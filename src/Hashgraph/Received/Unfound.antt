-- ===== src/Hashgraph/Received/Unfound.antt =====
-- What has happened when the search for a round ends without one.
use babble.Base.{
  ◌≡◌, refl, ap, subst, ℕ, zero, suc, ℤ, pos, pos_part, ◌+ℤ◌, ◌-ℤ◌, String, List, Bool, true, false,
  Bool-cases, inl, inr,
}
use babble.Common.Errors.{Error, Result, ok, err, panic}
use babble.Common.Exec.{Exec, pure, attempt}
use babble.Common.Exec.Inverse.{bind-inverse}
use babble.Common.Platform.{Platform}
use babble.Peers.PeerSet.{PeerSet}
use babble.Hashgraph.Crypto.{Crypto}
use babble.Hashgraph.RoundInfo.{RoundInfo, witnesses_decided, famous_witnesses}
use babble.Hashgraph.InmemStore.{get_round}
use babble.Hashgraph.State.{Hashgraph, on_store}
use babble.Hashgraph.Rounds.{peer_set_at, round}
use babble.Hashgraph.Voting.{write_round}
use babble.Hashgraph.Received.{
  is_below_round, is_received, that_see, receive, receive_or, skip_or_end, in_decided_round,
  in_round, find_round, decide_event,
}

module _ ⦃platform : Platform⦄ ⦃crypto : Crypto⦄ where
  -- a round that is read, with its peer-set, and what is then known of its decision
  pub record Read (i : ℤ) (decision : Bool) (h u : Hashgraph) : Type 0 where
    pub before : RoundInfo
    pub info : RoundInfo
    pub peer_set : PeerSet
    pub read_to : Hashgraph
    pub peers_to : Hashgraph
    pub read : attempt (on_store (get_round i)) h ≡ (ok (ok before), read_to)
    pub peers : peer_set_at i read_to ≡ (ok peer_set, peers_to)
    pub decided : witnesses_decided before peer_set ≡ (info, decision)
    pub written : u ≡ write_round i info peers_to

  -- The search through so many rounds from one on: every round is passed over, being undecided and not
  -- above the lower bound, or decided without all famous witnesses seeing the event or without enough
  -- of them, until there are no more, one is not stored, or one above the bound is not decided.
  pub data Unfound (x : String) : ℕ → ℤ → Hashgraph → Hashgraph → Type 0 where
    past_last : (i : ℤ) (h : Hashgraph) → Unfound x zero i h h
    not_stored :
        (i : ℤ) {n : ℕ} {e : Error} {h g : Hashgraph}
        → attempt (on_store (get_round i)) h ≡ (ok (err e), g)
        → Unfound x (suc n) i h g
    not_decided :
        (i : ℤ) {n : ℕ} {h g : Hashgraph}
        → Read i false h g
        → is_below_round g.round_lower_bound i ≡ true
        → Unfound x (suc n) i h g
    below_bound :
        (i : ℤ) {n : ℕ} {h u g : Hashgraph}
        → Read i false h u
        → is_below_round u.round_lower_bound i ≡ false
        → Unfound x n (i +ℤ pos 1) u g
        → Unfound x (suc n) i h g
    not_seen :
        (i : ℤ) {n : ℕ} {h u v g : Hashgraph} {seeing : List String} (r : Read i true h u)
        → that_see x (famous_witnesses r.info) u ≡ (ok seeing, v)
        → is_received r.peer_set (famous_witnesses r.info) seeing ≡ false
        → Unfound x n (i +ℤ pos 1) v g
        → Unfound x (suc n) i h g

  module _ (n : ℕ) (i : ℤ) (x : String) (g : Hashgraph)
      (go_on : (u : Hashgraph)
        → find_round n (i +ℤ pos 1) x u ≡ (ok false, g)
        → Unfound x n (i +ℤ pos 1) u g) where
    abbrev next : Exec Hashgraph Bool
    next = find_round n (i +ℤ pos 1) x

    in_undecided :
        (h u : Hashgraph)
        → Read i false h u
        → skip_or_end (is_below_round u.round_lower_bound i) next u ≡ (ok false, g)
        → Unfound x (suc n) i h g
    in_undecided h u r e = elim (Bool-cases (is_below_round u.round_lower_bound i)) [
      | inr not_above ↦ below_bound i r not_above (go_on u (rw not_above at e))
      | inl above ↦
          let ended = rw above at e in
          let same : u ≡ g = ap (λ (p : Result Bool × Hashgraph). p.1) ended in
          subst (λ t. Unfound x (suc n) i h t) same (not_decided i r above)
    ]

    in_decided :
        (h u : Hashgraph) (r : Read i true h u)
        → in_decided_round (r.info, true) r.peer_set next i x u ≡ (ok false, g)
        → Unfound x (suc n) i h g
    in_decided h u r e =
        let (seeing, v, seen, rest) =
          bind-inverse (that_see x (famous_witnesses r.info))
            (λ seeing.
              receive_or (is_received r.peer_set (famous_witnesses r.info) seeing) next i r.info x)
            u g false e in
        elim (Bool-cases (is_received r.peer_set (famous_witnesses r.info) seeing)) [
          | inr no_majority ↦ not_seen i r seen no_majority (go_on v (rw no_majority at rest))
          | inl agreed ↦
              let received = rw agreed at rest in
              let (_, w, written, last) =
                bind-inverse (receive i r.info x) (λ _. pure true) v g false received in
              absurd (true_or_false (ap (λ (p : Result Bool × Hashgraph). p.0) last))
        ]
      where
        true_or_false : ok true ≡ ok false → ⊥
        true_or_false e = cc

    in_round-Unfound :
        (r : Result RoundInfo) (h u : Hashgraph)
        → attempt (on_store (get_round i)) h ≡ (ok r, u)
        → in_round r next i x u ≡ (ok false, g)
        → Unfound x (suc n) i h g
    in_round-Unfound panic h u read e = absurd cc
    in_round-Unfound (err a) h u read e =
        let same : u ≡ g = ap (λ (p : Result Bool × Hashgraph). p.1) e in
        not_stored i (subst (λ t. attempt (on_store (get_round i)) h ≡ (ok (err a), t)) same read)
    in_round-Unfound (ok before) h u read e =
        let (ps, v, peers, rest) = bind-inverse (peer_set_at i) _ u g false e in
        by_decision ps v peers (witnesses_decided before ps) refl rest
      where
        by_decision :
            (ps : PeerSet) (v : Hashgraph)
            → peer_set_at i u ≡ (ok ps, v)
            → (d : RoundInfo × Bool) → witnesses_decided before ps ≡ d
            → in_decided_round d ps next i x (write_round i d.0 v) ≡ (ok false, g)
            → Unfound x (suc n) i h g
        by_decision ps v peers (info, true) d e =
            in_decided h (write_round i info v)
              (record {
                before = before;
                info = info;
                peer_set = ps;
                read_to = u;
                peers_to = v;
                read = read;
                peers = peers;
                decided = d;
                written = refl;
              })
              e
        by_decision ps v peers (info, false) d e =
            in_undecided h (write_round i info v)
              (record {
                before = before;
                info = info;
                peer_set = ps;
                read_to = u;
                peers_to = v;
                read = read;
                peers = peers;
                decided = d;
                written = refl;
              })
              e

  pub find_round-Unfound :
      (n : ℕ) (i : ℤ) (x : String) (h g : Hashgraph)
      → find_round n i x h ≡ (ok false, g)
      → Unfound x n i h g
  unfolding find_round
  find_round-Unfound zero i x h g e =
      let same : h ≡ g = ap (λ (p : Result Bool × Hashgraph). p.1) e in
      subst (λ t. Unfound x zero i h t) same (past_last i h)
  find_round-Unfound (suc n) i x h g e =
      let (r, u, read, rest) =
        bind-inverse (attempt (on_store (get_round i)))
          (λ r. in_round r (find_round n (i +ℤ pos 1) x) i x) h g false e in
      in_round-Unfound n i x g (λ v f. find_round-Unfound n (i +ℤ pos 1) x v g f) r h u read rest

  -- The search goes through the rounds above the event's own, to the last round of the store.
  pub record NotReceived (n : ℕ) (x : String) (h g : Hashgraph) : Type 0 where
    pub own : ℤ
    pub computed_to : Hashgraph
    pub computed : round n x h ≡ (ok own, computed_to)
    pub searched :
        Unfound x (pos_part (computed_to.store.last_round -ℤ own)) (own +ℤ pos 1) computed_to g

  pub decide_event-NotReceived :
      (n : ℕ) (x : String) (h g : Hashgraph)
      → decide_event n x h ≡ (ok false, g)
      → NotReceived n x h g
  unfolding decide_event
  decide_event-NotReceived n x h g e =
      let (r, u, computed, rest) = bind-inverse (round n x) _ h g false e in
      record {
        own = r;
        computed_to = u;
        computed = computed;
        searched = find_round-Unfound (pos_part (u.store.last_round -ℤ r)) (r +ℤ pos 1) x u g rest;
      }

-- ===== src/Hashgraph/Received/Remaining.antt =====
-- What DecideRoundReceived leaves among the undetermined events.
use babble.Base.{
  ◌≡◌, refl, ℕ, zero, suc, ℤ, pos, pos_part, ◌+ℤ◌, ◌-ℤ◌, String, List, [], ◌∷◌, Bool, true, false,
}
use babble.Common.Errors.{Result, ok, err, panic}
use babble.Common.Exec.{Exec, attempt, gets, modify}
use babble.Common.Sublist.{Sublist}
use babble.Common.Platform.{Platform}
use babble.Peers.PeerSet.{PeerSet}
use babble.Hashgraph.Crypto.{Crypto}
use babble.Hashgraph.Event.{set_round_received}
use babble.Hashgraph.RoundInfo.{RoundInfo, witnesses_decided, famous_witnesses, add_received_event}
use babble.Hashgraph.InmemStore.{get_event, set_event, get_round, set_round_info}
use babble.Hashgraph.State.{Hashgraph, on_store}
use babble.Hashgraph.State.Quiet.{
  IsQuiet, make-IsQuiet, read-IsQuiet, on_store-IsQuiet, attempt-IsQuiet, bind-IsQuiet,
}
use babble.Hashgraph.Ancestry.{see}
use babble.Hashgraph.Rounds.{peer_set_at, round}
use babble.Hashgraph.Rounds.Quiet.{see-IsQuiet, peer_set_at-IsQuiet, round-IsQuiet}
use babble.Hashgraph.Insert.{write_event}
use babble.Hashgraph.Voting.{write_round}
use babble.Hashgraph.Received.Unfound.{NotReceived}
use babble.Hashgraph.Received.Found.{ReceivedIn}
use babble.Hashgraph.Received.{
  is_below_round, is_received, that_see, receive, receive_or, skip_or_end, in_decided_round,
  in_round, find_round, decide_event, decide_events, leave_undetermined,
}

module _ ⦃platform : Platform⦄ ⦃crypto : Crypto⦄ where
  that_see-IsQuiet : (x : String) (ws : List String) → IsQuiet (that_see x ws)
  unfolding that_see
  that_see-IsQuiet x [] = read-IsQuiet _
  that_see-IsQuiet x (w ∷ ws) =
      bind-IsQuiet (see w x) _ (see-IsQuiet w x)
        (λ sees. bind-IsQuiet (that_see x ws) _ (that_see-IsQuiet x ws) (λ rest. read-IsQuiet _))

  receive-IsQuiet : (i : ℤ) (tr : RoundInfo) (x : String) → IsQuiet (receive i tr x)
  unfolding receive
  receive-IsQuiet i tr x =
      bind-IsQuiet (on_store (get_event x)) _ (on_store-IsQuiet (get_event x)) (λ ex.
        bind-IsQuiet (modify (write_event x (set_round_received ex i))) _
          (make-IsQuiet _ (λ h. refl))
          (λ _.
            bind-IsQuiet (on_store (set_event (set_round_received ex i))) _
              (on_store-IsQuiet (set_event (set_round_received ex i)))
              (λ _. on_store-IsQuiet (set_round_info i (add_received_event tr x)))))

  receive_or-IsQuiet :
      (b : Bool) (next : Exec Hashgraph Bool) (i : ℤ) (tr : RoundInfo) (x : String)
      → IsQuiet next
      → IsQuiet (receive_or b next i tr x)
  receive_or-IsQuiet true next i tr x t =
      bind-IsQuiet (receive i tr x) _ (receive-IsQuiet i tr x) (λ _. read-IsQuiet _)
  receive_or-IsQuiet false next i tr x t = t

  skip_or_end-IsQuiet :
      (b : Bool) (next : Exec Hashgraph Bool) → IsQuiet next → IsQuiet (skip_or_end b next)
  skip_or_end-IsQuiet true next t = read-IsQuiet _
  skip_or_end-IsQuiet false next t = t

  in_decided_round-IsQuiet :
      (d : RoundInfo × Bool) (ps : PeerSet) (next : Exec Hashgraph Bool) (i : ℤ) (x : String)
      → IsQuiet next
      → IsQuiet (in_decided_round d ps next i x)
  in_decided_round-IsQuiet (tr, false) ps next i x t =
      bind-IsQuiet (gets (λ (h : Hashgraph). h.round_lower_bound)) _ (read-IsQuiet _)
        (λ bound. skip_or_end-IsQuiet (is_below_round bound i) next t)
  in_decided_round-IsQuiet (tr, true) ps next i x t =
      bind-IsQuiet (that_see x (famous_witnesses tr)) _ (that_see-IsQuiet x (famous_witnesses tr))
        (λ seeing. receive_or-IsQuiet (is_received ps (famous_witnesses tr) seeing) next i tr x t)

  in_round-IsQuiet :
      (r : Result RoundInfo) (next : Exec Hashgraph Bool) (i : ℤ) (x : String)
      → IsQuiet next
      → IsQuiet (in_round r next i x)
  in_round-IsQuiet (err e) next i x t = read-IsQuiet _
  in_round-IsQuiet panic next i x t = read-IsQuiet _
  in_round-IsQuiet (ok tr) next i x t =
      bind-IsQuiet (peer_set_at i) _ (peer_set_at-IsQuiet i) (λ ps.
        bind-IsQuiet (modify (write_round i (witnesses_decided tr ps).0)) _
          (make-IsQuiet _ (λ h. refl))
          (λ _. in_decided_round-IsQuiet (witnesses_decided tr ps) ps next i x t))

  find_round-IsQuiet : (rounds : ℕ) (i : ℤ) (x : String) → IsQuiet (find_round rounds i x)
  unfolding find_round
  find_round-IsQuiet zero i x = read-IsQuiet _
  find_round-IsQuiet (suc rounds) i x =
      bind-IsQuiet (attempt (on_store (get_round i))) _
        (attempt-IsQuiet (on_store (get_round i)) (on_store-IsQuiet (get_round i)))
        (λ tr.
          in_round-IsQuiet tr (find_round rounds (i +ℤ pos 1) x) i x
            (find_round-IsQuiet rounds (i +ℤ pos 1) x))

  decide_event-IsQuiet : (n : ℕ) (x : String) → IsQuiet (decide_event n x)
  unfolding decide_event
  decide_event-IsQuiet n x = bind-IsQuiet (round n x) _ (round-IsQuiet n x) (λ r.
      bind-IsQuiet (gets (λ (h : Hashgraph). h.store.last_round)) _ (read-IsQuiet _)
        (λ last. find_round-IsQuiet (pos_part (last -ℤ r)) (r +ℤ pos 1) x))

  pub decide_events-IsQuiet : (n : ℕ) (xs : List String) → IsQuiet (decide_events n xs)
  unfolding decide_events
  decide_events-IsQuiet n [] = read-IsQuiet _
  decide_events-IsQuiet n (x ∷ xs) =
      bind-IsQuiet (decide_event n x) _ (decide_event-IsQuiet n x) (λ received.
        bind-IsQuiet (decide_events n xs) _ (decide_events-IsQuiet n xs) (λ rest. read-IsQuiet _))

  -- A pass over the undetermined events, one after another: those that are received are left out, and
  -- those for which the search ends without a round stay.
  pub data Pass (n : ℕ) : List String → Hashgraph → List String → Hashgraph → Type 0 where
    ended : (h : Hashgraph) → Pass n [] h [] h
    received :
        (x : String) {xs rest : List String} {h g k : Hashgraph}
        → decide_event n x h ≡ (ok true, g)
        → ReceivedIn n x h g
        → Pass n xs g rest k
        → Pass n (x ∷ xs) h rest k
    stayed :
        (x : String) {xs rest : List String} {h g k : Hashgraph}
        → decide_event n x h ≡ (ok false, g)
        → NotReceived n x h g
        → Pass n xs g rest k
        → Pass n (x ∷ xs) h (x ∷ rest) k

  -- what the method leaves of the undetermined events
  abbrev pub Remaining : ℕ → Hashgraph → Result (Unit {0}) × Hashgraph → Type 0
  Remaining n h (ok _, g) =
      (k : Hashgraph) × Pass n h.undetermined_events h g.undetermined_events k
      × (g ≡ leave_undetermined g.undetermined_events k)
      × Sublist g.undetermined_events h.undetermined_events
  Remaining n h (err e, g) = g.undetermined_events ≡ h.undetermined_events
  Remaining n h (panic, g) = g.undetermined_events ≡ h.undetermined_events

-- ===== src/Hashgraph/Received.antt =====
-- src/hashgraph/hashgraph.go, DecideRoundReceived: the round in which each undetermined event is
-- received. Cached rounds and events are written through their pointers before they are stored.
pub mod Found
pub mod Unfound
pub mod Remaining
pub mod Tests
use babble.Base.{
  ℕ, zero, suc, ◌==◌, ℤ, pos, pos_part, ◌+ℤ◌, ◌-ℤ◌, String, List, [], ◌∷◌, length, Option, none,
  some, leb, ltb_ℤ, if◌then◌else◌, ◌&&◌, Bool, true, false,
}
use babble.Common.Errors.{Result, ok, err, panic}
use babble.Common.Exec.{Exec, pure, lift, gets, attempt, modify, ◌>>=◌, ◌>>◌}
use babble.Common.Platform.{Platform}
use babble.Peers.PeerSet.{PeerSet, super_majority}
use babble.Hashgraph.Event.{set_round_received}
use babble.Hashgraph.Crypto.{Crypto}
use babble.Hashgraph.RoundInfo.{RoundInfo, witnesses_decided, famous_witnesses, add_received_event}
use babble.Hashgraph.InmemStore.{get_event, set_event, get_round, set_round_info}
use babble.Hashgraph.State.{Hashgraph, on_store}
use babble.Hashgraph.Ancestry.{see}
use babble.Hashgraph.Rounds.{peer_set_at, round}
use babble.Hashgraph.Insert.{write_event}
use babble.Hashgraph.Voting.{write_round}

-- `h.roundLowerBound == nil || *h.roundLowerBound < i`
abbrev pub is_below_round : Option ℤ → ℤ → Bool
is_below_round none i = true
is_below_round (some bound) i = ltb_ℤ bound i

-- all the famous witnesses see the event, and they are a super-majority
abbrev pub is_received : PeerSet → List String → List String → Bool
is_received ps famous seeing =
    length seeing == length famous && leb (super_majority ps) (length seeing)

module _ ⦃platform : Platform⦄ ⦃crypto : Crypto⦄ where
  -- the famous witnesses that see an event
  unfoldable pub that_see : String → List String → Exec Hashgraph (List String)
  that_see x [] = pure []
  that_see x (w ∷ ws) = do
    sees ← see w x
    rest ← that_see x ws
    pure (if sees then w ∷ rest else rest)

  -- the event is received in the round
  unfoldable pub receive : ℤ → RoundInfo → String → Exec Hashgraph (Unit {0})
  receive i tr x = do
    ex ← on_store (get_event x)
    modify (write_event x (set_round_received ex i))
    on_store (set_event (set_round_received ex i))
    on_store (set_round_info i (add_received_event tr x))

  -- the event is received, or the loop goes on
  abbrev pub receive_or : Bool → Exec Hashgraph Bool → ℤ → RoundInfo → String → Exec Hashgraph Bool
  receive_or true next i tr x = do receive i tr x; pure true
  receive_or false next i tr x = next

  -- a round that is not decided ends the loop, unless it is not above the lower bound
  abbrev pub skip_or_end : Bool → Exec Hashgraph Bool → Exec Hashgraph Bool
  skip_or_end true next = pure false
  skip_or_end false next = next

  abbrev pub in_decided_round :
      RoundInfo × Bool → PeerSet → Exec Hashgraph Bool → ℤ → String → Exec Hashgraph Bool
  in_decided_round (tr, false) ps next i x = do
    bound ← gets (λ (h : Hashgraph). h.round_lower_bound)
    skip_or_end (is_below_round bound i) next
  in_decided_round (tr, true) ps next i x = do
    seeing ← that_see x (famous_witnesses tr)
    receive_or (is_received ps (famous_witnesses tr) seeing) next i tr x

  -- a round that is not stored ends the loop
  abbrev pub in_round : Result RoundInfo → Exec Hashgraph Bool → ℤ → String → Exec Hashgraph Bool
  in_round (err e) next i x = pure false
  in_round panic next i x = lift panic
  in_round (ok tr) next i x = do
    ps ← peer_set_at i
    modify (write_round i (witnesses_decided tr ps).0)
    in_decided_round (witnesses_decided tr ps) ps next i x

  -- the loop over so many rounds; whether the event was received
  unfoldable pub find_round : ℕ → ℤ → String → Exec Hashgraph Bool
  find_round zero i x = pure false
  find_round (suc rounds) i x = do
    tr ← attempt (on_store (get_round i))
    in_round tr (find_round rounds (i +ℤ pos 1) x) i x

  unfoldable pub decide_event : ℕ → String → Exec Hashgraph Bool
  decide_event n x = do
    r ← round n x
    last ← gets (λ (h : Hashgraph). h.store.last_round)
    find_round (pos_part (last -ℤ r)) (r +ℤ pos 1) x

  -- the events of a list that stay undetermined
  unfoldable pub decide_events : ℕ → List String → Exec Hashgraph (List String)
  decide_events n [] = pure []
  decide_events n (x ∷ xs) = do
    received ← decide_event n x
    rest ← decide_events n xs
    pure (if received then rest else x ∷ rest)

  abbrev pub leave_undetermined : List String → Hashgraph → Hashgraph
  leave_undetermined rest h = record h { undetermined_events = rest }

  unfoldable pub decide_round_received : ℕ → Exec Hashgraph (Unit {0})
  decide_round_received n = do
    events ← gets (λ (h : Hashgraph). h.undetermined_events)
    rest ← decide_events n events
    modify (leave_undetermined rest)

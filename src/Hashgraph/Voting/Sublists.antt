-- ===== src/Hashgraph/Voting/Sublists.antt =====
-- The witnesses that an event strongly sees are among those that it is asked about, in order.
use babble.Base.{◌≡◌, subst, String, List, [], ◌∷◌, if◌then◌else◌, Bool, true, false}
use babble.Common.Errors.{ok}
use babble.Common.Exec.Steps.{whatever, IfOk, Steps, any_change, bind-Steps, bind-Moves}
use babble.Common.Sublist.{Sublist, done, keep, skip}
use babble.Common.Platform.{Platform}
use babble.Peers.PeerSet.{PeerSet}
use babble.Hashgraph.Crypto.{Crypto}
use babble.Hashgraph.State.{Hashgraph}
use babble.Hashgraph.Ancestry.{strongly_see}
use babble.Hashgraph.Rounds.{strongly_seen}

module _ ⦃platform : Platform⦄ ⦃crypto : Crypto⦄ where
  selected :
      (b : Bool) (w : String) {seen ws : List String}
      → Sublist seen ws
      → Sublist (if b then w ∷ seen else seen) (w ∷ ws)
  selected true w s = keep w s
  selected false w s = skip w s

  strongly_seen-Steps :
      (y : String) (ws : List String) (ps : PeerSet)
      → Steps any_change (λ (seen : List String). Sublist seen ws) (strongly_seen y ws ps)
  unfolding strongly_seen
  strongly_seen-Steps y [] ps h = (tt, done)
  strongly_seen-Steps y (w ∷ ws) ps h =
      bind-Moves any_change _ (strongly_see y w ps) _
        (λ g. (tt, whatever (strongly_see y w ps g).0))
        (λ ss.
          bind-Steps any_change (λ (seen : List String). Sublist seen ws) _ (strongly_seen y ws ps)
            _ (strongly_seen-Steps y ws ps) (λ seen s g. (tt, selected ss w s)))
        h

  pub strongly_seen-Sublist :
      (y : String) (ws : List String) (ps : PeerSet) (h : Hashgraph) {seen : List String}
      → (strongly_seen y ws ps h).0 ≡ ok seen
      → Sublist seen ws
  strongly_seen-Sublist y ws ps h {seen} e =
      subst (IfOk (λ (seen : List String). Sublist seen ws)) e (strongly_seen-Steps y ws ps h).1

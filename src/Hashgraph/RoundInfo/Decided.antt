-- ===== src/Hashgraph/RoundInfo/Decided.antt =====
-- When a round is decided.
use babble.Base.{
  ℕ, ◌+◌, ◌≤◌, ◌≡◌, ◌↔◌, String, [], ◌∷◌, GoMap, some, All, length, Bool, true, false, arith, inl,
  inr, Option-cases, string_key,
}
use babble.Peers.PeerSet.{PeerSet, super_majority}
use babble.Hashgraph.RoundInfo.{
  RoundInfo, RoundEvent, is_defined, count_decided, witnesses_decided, witnesses, witnesses_of,
  set_fame, add_created_event,
}

-- Every witness of a round has a fame.
abbrev pub AllDecided : GoMap String RoundEvent → Type 0
AllDecided = All (λ e. e.1.witness ≡ true → is_defined e.1.famous ≡ true)

count_decided_lem :
    (m : GoMap String RoundEvent) (c n : ℕ)
    → count_decided m c ≡ some n
    → AllDecided m × (n ≡ c + length (witnesses_of m))
unfolding count_decided witnesses_of
count_decided_lem [] c n h = (tt, ground arith)
count_decided_lem ((x, e) ∷ m) c n h =
    ground (arith, count_decided_lem m (c + 1) n, count_decided_lem m c n)

count_decided_all :
    (m : GoMap String RoundEvent) (c : ℕ)
    → AllDecided m
    → count_decided m c ≡ some (c + length (witnesses_of m))
unfolding count_decided witnesses_of
count_decided_all [] c h = ground arith
count_decided_all ((x, e) ∷ m) c h =
    ground (arith, h.0, count_decided_all m (c + 1) h.1, count_decided_all m c h.1)

-- A round that was not decided becomes decided exactly when every witness has a fame and the
-- witnesses reach a strong majority of the peer-set.
pub witnesses_decided_iff :
    (r : RoundInfo) (ps : PeerSet)
    → r.decided ≡ false
    → ((witnesses_decided r ps).1 ≡ true)
      ↔ (AllDecided r.created_events × (super_majority ps ≤ length (witnesses r)))
unfolding witnesses_decided witnesses
witnesses_decided_iff r ps h = (
  λ d. elim (Option-cases (count_decided r.created_events 0)) [
    | inl e ↦ absurd (ground arith)
    | inr (n, e) ↦
        let (all, total) = count_decided_lem r.created_events 0 n e in (all, ground arith)
  ],
  λ p. ground (arith, count_decided_all r.created_events 0 p.0, p.1),
)

-- Once decided, a round stays decided, with any peer-set, whatever events and fames are added.
pub decided_stays :
    (r : RoundInfo) (ps qs : PeerSet) (x y : String) (w f : Bool)
    → (witnesses_decided r ps).1 ≡ true
    → (witnesses_decided (set_fame (add_created_event (witnesses_decided r ps).0 x w) y f) qs).1
      ≡ true
unfolding witnesses_decided set_fame add_created_event
decided_stays r ps qs x y w f h = ground arith

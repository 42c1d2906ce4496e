-- ===== src/Hashgraph/Process/Turns.antt =====
-- Which rounds are processed, one after another, and that they leave the queue.
use babble.Base.{◌≡◌, refl, ap, ℤ, List, [], ◌∷◌, ◌++◌, some, if◌then◌else◌, int_key, All}
use babble.Common.Errors.{Error, Result, ok, err, panic}
use babble.Common.Exec.{Exec}
use babble.Hashgraph.PendingRounds.{PendingRound}
use babble.Hashgraph.State.{Hashgraph}
use babble.Hashgraph.State.Owner.{Owner}
use babble.Hashgraph.Anchor.Signed.{NotBelow, NotBelow-refl, NotBelow-trans}
use babble.Hashgraph.Process.Onward.{Onward, Onward-refl, Onward-trans}
use babble.Hashgraph.Process.{go_on}

-- the rounds before the first that is not decided
abbrev pub decided_prefix : List PendingRound → List ℤ
decided_prefix [] = []
decided_prefix (p ∷ ps) = if p.decided then p.index ∷ decided_prefix ps else []

abbrev pub IsPrefix : List ℤ → List ℤ → Type 0
IsPrefix xs ys = (rest : List ℤ) × (xs ++ rest ≡ ys)

-- the last consensus round of what a step leaves, when it returns
abbrev pub Reached : ℤ → Hashgraph → Result (Unit {0}) → Type 0
Reached i g (ok _) = NotBelow (some i) g.last_consensus_round
Reached i g _ = Unit

-- all the rounds, if there was no error
abbrev pub Complete : Result (Unit {0}) → List ℤ → List ℤ → Type 0
Complete (ok _) done rounds = done ≡ rounds
Complete _ done rounds = Unit

-- What the loop leaves when it should process some rounds: it processed the first of them, and all
-- unless an error stopped it; and the last consensus round is not below any of those.
pub record Processed (rounds : List ℤ) (h : Hashgraph) (r : Result (Unit {0})) (g : Hashgraph)
    (done : List ℤ) : Type 0 where
  pub prefix : IsPrefix done rounds
  pub complete : Complete r done rounds
  pub up : NotBelow h.last_consensus_round g.last_consensus_round
  pub reached : All (λ i. NotBelow (some i) g.last_consensus_round) done

module _ {S : Type 0} ⦃owner : Owner S⦄ where
  -- the same, of the loop's own steps
  abbrev pub Turns : List ℤ → S → Result (Unit {0}) × S × List ℤ → Type 0
  Turns rounds s out =
      Onward (owner.hashgraph_of s) (owner.hashgraph_of out.1)
      × Processed rounds (owner.hashgraph_of s) out.0 (owner.hashgraph_of out.1) out.2

  pub go_on-Turns :
      (rounds : List ℤ) (i : ℤ) (s t : S) (r : Result (Unit {0}))
      (rest : S → Result (Unit {0}) × S × List ℤ)
      → Onward (owner.hashgraph_of s) (owner.hashgraph_of t)
      → Reached i (owner.hashgraph_of t) r
      → ((u : S) → Turns rounds u (rest u))
      → Turns (i ∷ rounds) s (go_on r i rest t)
  go_on-Turns rounds i s t (ok _) rest before reached turns =
      let (after, q) = turns t in
      let g = owner.hashgraph_of t in
      let last = owner.hashgraph_of (rest t).1 in
      let whole = Onward-trans (owner.hashgraph_of s) g last before after in
      let higher = last.last_consensus_round in
      (
        whole,
        record {
          prefix = (q.prefix.0, ap (λ xs. i ∷ xs) q.prefix.1);
          complete = one_more (rest t).0 q.complete;
          up = whole.up;
          reached = (NotBelow-trans (some i) g.last_consensus_round higher reached q.up, q.reached);
        },
      )
    where
      one_more :
          (r : Result (Unit {0}))
          → Complete r (rest t).2 rounds
          → Complete r (i ∷ (rest t).2) (i ∷ rounds)
      one_more (ok _) e = ap (λ xs. i ∷ xs) e
      one_more (err x) e = tt
      one_more panic e = tt
  go_on-Turns rounds i s t (err e) rest before reached turns =
      (before, record { prefix = (i ∷ rounds, refl); complete = tt; up = before.up; reached = tt })
  go_on-Turns rounds i s t panic rest before reached turns =
      (before, record { prefix = (i ∷ rounds, refl); complete = tt; up = before.up; reached = tt })

  pub none_processed : (s : S) → Turns [] s (ok tt, s, [])
  none_processed s = (
    Onward-refl (owner.hashgraph_of s),
    record {
      prefix = ([], refl);
      complete = refl;
      up = NotBelow-refl (owner.hashgraph_of s).last_consensus_round;
      reached = tt;
    },
  )

-- A run of the turns of the loop over the rounds that it should process, with those it did process:
-- one after another, each from the state that the one before left, to the end or to an error.
pub data Ran {S : Type 0} (turn : ℤ → Exec S (Unit {0}))
    : List ℤ → S → List ℤ → Result (Unit {0}) → S → Type 0 where
  ended : (s : S) → Ran turn [] s [] (ok tt) s
  turned :
      (i : ℤ) {rounds done : List ℤ} {s u t : S} {r : Result (Unit {0})}
      → turn i s ≡ (ok tt, u)
      → Ran turn rounds u done r t
      → Ran turn (i ∷ rounds) s (i ∷ done) r t
  failed :
      (i : ℤ) {rounds : List ℤ} {s t : S} {e : Error}
      → turn i s ≡ (err e, t)
      → Ran turn (i ∷ rounds) s [] (err e) t
  panicked :
      (i : ℤ) {rounds : List ℤ} {s t : S}
      → turn i s ≡ (panic, t)
      → Ran turn (i ∷ rounds) s [] panic t

module _ {S : Type 0} (turn : ℤ → Exec S (Unit {0})) where
  pub go_on-Ran :
      (i : ℤ) (rounds : List ℤ) (s : S) (out : Result (Unit {0}) × S)
      (rest : S → Result (Unit {0}) × S × List ℤ)
      → turn i s ≡ out
      → ((u : S) → Ran turn rounds u (rest u).2 (rest u).0 (rest u).1)
      → Ran turn
          (i ∷ rounds)
          s
          (go_on out.0 i rest out.1).2
          (go_on out.0 i rest out.1).0
          (go_on out.0 i rest out.1).1
  go_on-Ran i rounds s (ok _, u) rest e f = turned i e (f u)
  go_on-Ran i rounds s (err x, u) rest e f = failed i e
  go_on-Ran i rounds s (panic, u) rest e f = panicked i e

-- ===== src/Hashgraph/Process/Onward.antt =====
-- Changes that do not lower the last consensus round and keep the pending rounds in order.
use babble.Base.{
  ◌≡◌, refl, ap, ℤ, ltb_ℤ, Option, none, some, if◌then◌else◌, Bool-cases, inl, inr, arith,
}
use babble.Common.Exec.{Exec, modify}
use babble.Common.Exec.Steps.{Change, Whatever, whatever, Steps}
use babble.Hashgraph.PendingRounds.Order.{IsOrdered}
use babble.Hashgraph.State.{Hashgraph, set_last_consensus_round}
use babble.Hashgraph.State.Quiet.{Ledger, IsQuiet, ledger_stays}
use babble.Hashgraph.Anchor.Signed.{NotBelow, NotBelow-refl, NotBelow-trans}
use babble.Hashgraph.Process.{is_later, note_processed}

pub record Onward (h g : Hashgraph) : Type 0 where
  pub up : NotBelow h.last_consensus_round g.last_consensus_round
  pub in_order : IsOrdered h.pending_rounds → IsOrdered g.pending_rounds

pub Onward-refl : (h : Hashgraph) → Onward h h
Onward-refl h = record { up = NotBelow-refl h.last_consensus_round; in_order = λ w. w }

pub Onward-trans : (f g h : Hashgraph) → Onward f g → Onward g h → Onward f h
Onward-trans f g h p q = record {
  up =
      NotBelow-trans f.last_consensus_round g.last_consensus_round h.last_consensus_round p.up q.up;
  in_order = λ w. q.in_order (p.in_order w);
}

abbrev pub onward : Change Hashgraph
onward = record { allowed = Onward; none_at_all = Onward-refl; then_ = Onward-trans }

-- a change of neither
pub same-Onward :
    (h g : Hashgraph)
    → g.last_consensus_round ≡ h.last_consensus_round
    → g.pending_rounds ≡ h.pending_rounds
    → Onward h g
same-Onward h g last rounds = record {
  up = rw last (NotBelow-refl h.last_consensus_round);
  in_order = λ w. rw rounds w;
}

pub quiet-Onward : {A : Type 0} (m : Exec Hashgraph A) → IsQuiet m → Steps onward Whatever m
quiet-Onward m q h = (
  same-Onward h (m h).1 (ap (λ (l : Ledger). l.last_consensus_round) (ledger_stays m q h))
      (ap (λ (l : Ledger). l.pending_rounds) (ledger_stays m q h)),
  whatever (m h).0,
)

pub modify-Onward :
    (f : Hashgraph → Hashgraph)
    → ((h : Hashgraph) → Onward h (f h))
    → Steps onward Whatever (modify f)
modify-Onward f t h = (t h, tt)

-- the higher of a round and the last one
abbrev pub raised : ℤ → Option ℤ → Option ℤ
raised i o = if is_later i o then some i else o

pub raised_above : (i : ℤ) (o : Option ℤ) → NotBelow o (raised i o) × NotBelow (some i) (raised i o)
raised_above i none = (tt, omega arith)
raised_above i (some last) = elim (Bool-cases (ltb_ℤ last i)) [
  | inl e ↦ rw e (ground (arith, e), omega arith)
  | inr e ↦ rw e (omega arith, ground (arith, e))
]

pub note_processed_lem :
    (i : ℤ) (h : Hashgraph)
    → (note_processed i h).last_consensus_round ≡ raised i h.last_consensus_round
unfolding note_processed set_last_consensus_round
note_processed_lem i h = elim (Bool-cases (is_later i h.last_consensus_round)) [
  | inl e ↦ rw e refl
  | inr e ↦ rw e refl
]

pub note_processed_rounds :
    (i : ℤ) (h : Hashgraph) → (note_processed i h).pending_rounds ≡ h.pending_rounds
unfolding note_processed set_last_consensus_round
note_processed_rounds i h = elim (Bool-cases (is_later i h.last_consensus_round)) [
  | inl e ↦ rw e refl
  | inr e ↦ rw e refl
]

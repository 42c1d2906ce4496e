-- ===== src/Hashgraph/State/Owner.antt =====
-- The object that a hashgraph belongs to. The commit callback of a hashgraph may change all of it:
-- src/node/core.go passes `core.commit`.
use babble.Base.{◌≡◌, refl, sym, subst}
use babble.Common.Exec.{Exec}
use babble.Common.Exec.Steps.{Change, Steps}
use babble.Hashgraph.State.{Hashgraph}

pub record Owner (S : Type 0) : Type 0 where
  pub hashgraph_of : S → Hashgraph
  pub with_hashgraph : S → Hashgraph → S
  pub holds : (s : S) (h : Hashgraph) → hashgraph_of (with_hashgraph s h) ≡ h

-- a hashgraph without anything around it
instance abbrev pub alone : Owner Hashgraph
alone = record { hashgraph_of = λ h. h; with_hashgraph = λ _ h. h; holds = λ _ _. refl }

module _ {S : Type 0} ⦃owner : Owner S⦄ where
  -- a method of the hashgraph, called by its owner
  abbrev pub on_hashgraph : {A : Type 0} → Exec Hashgraph A → Exec S A
  on_hashgraph m s = let (r, h) = m (owner.hashgraph_of s) in (r, owner.with_hashgraph s h)

  -- a change of the owner, by its hashgraph
  abbrev pub owned : Change Hashgraph → Change S
  owned c = record {
    allowed = λ s t. c.allowed (owner.hashgraph_of s) (owner.hashgraph_of t);
    none_at_all = λ s. c.none_at_all (owner.hashgraph_of s);
    then_ = λ r s t. c.then_ (owner.hashgraph_of r) (owner.hashgraph_of s) (owner.hashgraph_of t);
  }

  pub on_hashgraph-Steps :
      {A : Type 0} (c : Change Hashgraph) (Q : A → Type 0) (m : Exec Hashgraph A)
      → Steps c Q m
      → Steps (owned c) Q (on_hashgraph m)
  on_hashgraph-Steps c Q m t s =
      let h = owner.hashgraph_of s in
      (subst (λ g. c.allowed h g) (sym (owner.holds s (m h).1)) (t h).0, (t h).1)

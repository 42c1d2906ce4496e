-- ===== src/Hashgraph/Ancestry/Memo.antt =====
-- The cache of the ancestors answers what the computation answers.
use babble.Base.{◌≡◌, ◌∙◌, sym, String, Bool, Option-cases, inl, inr}
use babble.Common.Errors.{Result, ok, err, panic}
use babble.Common.Exec.{continue, modify, pure, ◌>>◌}
use babble.Common.Platform.{Platform}
use babble.Common.Lru
use babble.Common.Lru.Contents.{peek-get}
use babble.Common.Lru.Holds.{Holds, get-Holds, add-Holds}
use babble.Hashgraph.State.{Hashgraph, PairKey, pair_key}
use babble.Hashgraph.Ancestry.{ancestor, compute_ancestor, keep_ancestor}

-- Every cached answer is the one that a relation gives.
abbrev pub IsMemo : (String → String → Bool) → Hashgraph → Type 0
IsMemo truth h = Holds (λ key a. a ≡ truth key.x key.y) h.ancestor_cache

-- an answer, if it is not an error, is the given one
abbrev pub Agrees : Result Bool → Bool → Type 0
Agrees (ok a) b = a ≡ b
Agrees _ b = Unit

kept-IsMemo :
    (truth : String → String → Bool) (key : PairKey) (r : Result Bool) (h : Hashgraph)
    → IsMemo truth h
    → Agrees r (truth key.x key.y)
    → IsMemo truth (continue r (λ a. modify (keep_ancestor key a) >> pure a) h).1
      × Agrees (continue r (λ a. modify (keep_ancestor key a) >> pure a) h).0 (truth key.x key.y)
kept-IsMemo truth key (ok a) h memo e = (add-Holds _ h.ancestor_cache key a memo e, e)
kept-IsMemo truth key (err _) h memo e = (memo, tt)
kept-IsMemo truth key panic h memo e = (memo, tt)

module _ ⦃platform : Platform⦄ where
  -- As long as the cached answers are those of a relation, and what is computed from the store is
  -- too, `ancestor` answers by the relation, whether from the cache or not, and the cache stays so.
  pub ancestor-IsMemo :
      (truth : String → String → Bool) (x y : String) (h : Hashgraph)
      → IsMemo truth h
      → Agrees (compute_ancestor x y h.store).0 (truth x y)
      → IsMemo truth (ancestor x y h).1 × Agrees (ancestor x y h).0 (truth x y)
  unfolding ancestor
  ancestor-IsMemo truth x y h memo e =
      let key : PairKey = record { x = x; y = y } in
      let touched = get-Holds _ h.ancestor_cache key memo in
      elim (Option-cases (Lru.get h.ancestor_cache key).1) [
        | inl none_there ↦ rw none_there (
            kept-IsMemo truth key (compute_ancestor x y h.store).0
              (record h {
                ancestor_cache = (Lru.get h.ancestor_cache key).0;
                store = (compute_ancestor x y h.store).1;
              })
              touched e)
        | inr (a, there) ↦
            rw there (touched, memo.all key a (sym (peek-get h.ancestor_cache key key).0 ∙ there))
      ]

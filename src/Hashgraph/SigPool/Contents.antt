-- ===== src/Hashgraph/SigPool/Contents.antt =====
-- What a pool holds after signatures are added and removed.
use babble.Base.{
  ◌≡◌, refl, sym, ◌∙◌, List, [], ◌∷◌, insert, delete, lookup, lookup-delete, Option, none, some,
  ite, if_pos, if_neg, All, arith, Bool, true, false, if◌then◌else◌, Distinct, insert-Distinct,
}
use babble.Common.Platform.{Platform}
use babble.Hashgraph.Event.{BlockSignature}
use babble.Hashgraph.SigPool.{
  SigPool, SigKey, SigKey-discrete, sig_key_key, key_of, add_sig, remove_slice, slice,
}

module _ ⦃platform : Platform⦄ where
  -- a signature of the list has the key
  abbrev pub listed : List BlockSignature → SigKey → Bool
  listed [] k = false
  listed (s ∷ sigs) k = ite (SigKey-discrete (key_of s) k) true (listed sigs k)

  -- `RemoveSlice` removes exactly the signatures of the list, so that one that was added in the
  -- meantime under another key stays.
  pub lookup-remove_slice :
      (sp : SigPool) (sigs : List BlockSignature) (k : SigKey)
      → lookup (remove_slice sp sigs) k ≡ (if listed sigs k then none else lookup sp k)
  unfolding remove_slice
  lookup-remove_slice sp [] k = refl
  lookup-remove_slice sp (s ∷ sigs) k =
      lookup-remove_slice (delete sp (key_of s)) sigs k
      ∙ ground (arith, lookup-delete sp (key_of s) k)

  -- Each signature stands under its own key, once.
  pub record IsKeyed (sp : SigPool) : Type 0 where
    pub keyed : All (λ e. e.0 ≡ key_of e.1) sp
    pub distinct : Distinct sp

  add_keyed :
      (sp : SigPool) (bs : BlockSignature)
      → All (λ e. e.0 ≡ key_of e.1) sp
      → All (λ e. e.0 ≡ key_of e.1) (add_sig sp bs)
  unfolding add_sig insert
  add_keyed [] bs h = (refl, tt)
  add_keyed ((j, s) ∷ sp) bs h = elim (SigKey-discrete j (key_of bs)) [
    | yes e ↦ rw (if_pos _ e) (e, h.1)
    | no n ↦ rw (if_neg _ n) (h.0, add_keyed sp bs h.1)
  ]

  -- `Add` keeps every signature under its own key.
  pub add_sig-IsKeyed : (sp : SigPool) (bs : BlockSignature) → IsKeyed sp → IsKeyed (add_sig sp bs)
  add_sig-IsKeyed sp bs w = record {
    keyed = add_keyed sp bs w.keyed;
    distinct = unfold add_sig in insert-Distinct sp (key_of bs) bs w.distinct;
  }

  listed_self :
      (sp : SigPool) (k : SigKey) {s : BlockSignature}
      → All (λ e. e.0 ≡ key_of e.1) sp
      → lookup sp k ≡ some s
      → listed (slice sp) k ≡ true
  unfolding lookup slice
  listed_self [] k h e = cc
  listed_self ((j, s) ∷ sp) k h e = elim (SigKey-discrete j k) [
    | yes p ↦ rw (if_pos _ (sym h.0 ∙ p)) refl
    | no n ↦ rw (if_neg _ (λ q. n (h.0 ∙ q))) (listed_self sp k h.1 (rw (if_neg _ n) at e))
  ]

  -- A pool with each signature under its own key holds nothing once it is emptied of what `Slice`
  -- returned.
  pub remove_slice-slice :
      (sp : SigPool) (k : SigKey) → IsKeyed sp → lookup (remove_slice sp (slice sp)) k ≡ none
  remove_slice-slice sp k w = rw lookup-remove_slice (go (lookup sp k) refl)
    where
      go :
          (o : Option BlockSignature)
          → lookup sp k ≡ o
          → (if listed (slice sp) k then none else lookup sp k) ≡ none
      go none e = ground (arith, e)
      go (some s) e = rw (listed_self sp k w.keyed e) refl

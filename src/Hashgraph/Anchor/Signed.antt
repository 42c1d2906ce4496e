-- ===== src/Hashgraph/Anchor/Signed.antt =====
-- ProcessSigPool only moves the anchor up, and only takes signatures out of the pool.
use babble.Base.{
  ◌≡◌, ℤ, ◌≤ℤ◌, ltb, List, [], ◌∷◌, lookup, lookup-delete, is_some, Option, some, none, ite, Bool,
  true, false, Bool-cases, inl, inr, arith, string_key, ◌&&◌, length,
}
use babble.Common.Errors.{Result, ok, err, panic, Result-cases}
use babble.Common.Exec.{Exec, attempt, caught, modify, continue, ◌>>=◌}
use babble.Common.Platform.{Platform}
use babble.Peers.PeerSet.{PeerSet, trust_count}
use babble.Hashgraph.Event.{BlockSignature}
use babble.Hashgraph.SigPool.{
  SigPool, SigKey, sig_key_key, validator_hex, key_of, remove_sig, slice,
}
use babble.Hashgraph.Crypto.{Crypto}
use babble.Hashgraph.Block.{Block, set_signature, verify_signature}
use babble.Hashgraph.InmemStore.{InmemStore, get_block, set_block}
use babble.Hashgraph.State.{Hashgraph, on_store}
use babble.Hashgraph.Anchor.{
  next_anchor, is_above, peer_set_of, set_anchor_block, accept_signature, match_signature,
  process_signature, process_signatures, process_sig_pool,
}

-- The anchor is not unset and does not move down.
abbrev pub NotBelow : Option ℤ → Option ℤ → Type 0
NotBelow none b = Unit
NotBelow (some a) none = ⊥
NotBelow (some a) (some b) = a ≤ℤ b

pub record Progress (h g : Hashgraph) : Type 0 where
  pub anchor : NotBelow h.anchor_block g.anchor_block
  pub pool :
      (k : SigKey) (bs : BlockSignature)
      → lookup g.pending_signatures k ≡ some bs
      → lookup h.pending_signatures k ≡ some bs

pub NotBelow-refl : (a : Option ℤ) → NotBelow a a
NotBelow-refl none = tt
NotBelow-refl (some a) = omega arith

pub NotBelow-trans : (a b c : Option ℤ) → NotBelow a b → NotBelow b c → NotBelow a c
NotBelow-trans none b c p q = tt
NotBelow-trans (some a) none c p q = elim p [ ]
NotBelow-trans (some a) (some b) none p q = elim q [ ]
NotBelow-trans (some a) (some b) (some c) p q = omega (arith, p, q)

Progress-refl : (h : Hashgraph) → Progress h h
Progress-refl h = record { anchor = NotBelow-refl h.anchor_block; pool = λ k bs e. e }

Progress-trans : (f g h : Hashgraph) → Progress f g → Progress g h → Progress f h
Progress-trans f g h p q = record {
  anchor = NotBelow-trans f.anchor_block g.anchor_block h.anchor_block p.anchor q.anchor;
  pool = λ k bs e. p.pool k bs (q.pool k bs e);
}

-- A method makes progress from every state.
abbrev pub Advances : {A : Type 0} → Exec Hashgraph A → Type 0
Advances m = (h : Hashgraph) → Progress h (m h).1

module _ {A B : Type 0} where
  continue-Advances :
      (r : Result A) (f : A → Exec Hashgraph B)
      → ((a : A) → Advances (f a))
      → Advances (continue r f)
  continue-Advances (ok a) f p h = p a h
  continue-Advances (err e) f p h = Progress-refl h
  continue-Advances panic f p h = Progress-refl h

  bind-Advances :
      (m : Exec Hashgraph A) (f : A → Exec Hashgraph B)
      → Advances m
      → ((a : A) → Advances (f a))
      → Advances (m >>= f)
  bind-Advances m f p q h = Progress-trans h (m h).1 _ (p h) (continue-Advances (m h).0 f q (m h).1)

caught-Advances :
    {A : Type 0} (r : Result A) (h g : Hashgraph) → Progress h g → Progress h (caught r g).1
caught-Advances (ok a) h g p = p
caught-Advances (err e) h g p = p
caught-Advances panic h g p = p

attempt-Advances : {A : Type 0} (m : Exec InmemStore A) → Advances (attempt (on_store m))
attempt-Advances m h =
    caught-Advances (m h.store).0 h (record h { store = (m h.store).1 })
      (record { anchor = NotBelow-refl h.anchor_block; pool = λ k bs e. e })

next_anchor-NotBelow : (a : Option ℤ) (b : Block) (ps : PeerSet) → NotBelow a (next_anchor a b ps)
unfolding next_anchor
next_anchor-NotBelow none b ps = tt
next_anchor-NotBelow (some a) b ps =
    elim (Bool-cases
      (ltb (trust_count ps) (length b.signatures) && is_above b.body.index (some a))) [
        | inl e ↦ rw e (ground (arith, e))
        | inr e ↦ rw e (omega arith)
      ]

set_anchor_block-Advances : (b : Block) → Advances (set_anchor_block b)
unfolding set_anchor_block
set_anchor_block-Advances b h =
    continue-Advances (peer_set_of b h)
      (λ ps.
        modify (λ (g : Hashgraph). record g { anchor_block = next_anchor g.anchor_block b ps }))
      (λ ps g. record { anchor = next_anchor-NotBelow g.anchor_block b ps; pool = λ k bs e. e }) h

module _ ⦃platform : Platform⦄ ⦃crypto : Crypto⦄ where
  remove_lem :
      (sp : SigPool) (key k : SigKey) (bs : BlockSignature)
      → lookup (remove_sig sp key) k ≡ some bs
      → lookup sp k ≡ some bs
  unfolding remove_sig
  remove_lem sp key k bs e = unless_none (sig_key_key.dec key k) (rw lookup-delete at e)
    where
      unless_none :
          {P : Type 0} (d : Dec P) → ite d none (lookup sp k) ≡ some bs → lookup sp k ≡ some bs
      unless_none (yes p) e = cc
      unless_none (no n) e = e

  accept_signature-Advances :
      (r : Result Bool) (bs : BlockSignature) (b : Block) → Advances (accept_signature r bs b)
  accept_signature-Advances (err e) bs b h = Progress-refl h
  accept_signature-Advances panic bs b h = Progress-refl h
  accept_signature-Advances (ok false) bs b h = Progress-refl h
  accept_signature-Advances (ok true) bs b h =
      bind-Advances (attempt (on_store (set_block (set_signature b bs)))) _
        (attempt-Advances (set_block (set_signature b bs)))
        (λ _.
          bind-Advances (set_anchor_block (set_signature b bs)) _
            (set_anchor_block-Advances (set_signature b bs))
            (λ _ g. record {
              anchor = NotBelow-refl g.anchor_block;
              pool = remove_lem g.pending_signatures (key_of bs);
            }))
        h

  match_signature-Advances :
      (r : Result Block) (bs : BlockSignature) → Advances (match_signature r bs)
  match_signature-Advances (err e) bs h = Progress-refl h
  match_signature-Advances panic bs h = Progress-refl h
  match_signature-Advances (ok b) bs h = elim (Result-cases (peer_set_of b h)) [
    | inl (ps, e) ↦ elim (Bool-cases (is_some (lookup ps.by_pub_key (validator_hex bs)))) [
      | inl m ↦
          rw (e, match_signature) (rw m (accept_signature-Advances (verify_signature b bs) bs b h))
      | inr m ↦ rw (e, match_signature) (rw m (Progress-refl h))
    ]
    | inr (inl (x, e)) ↦ rw (e, match_signature) (Progress-refl h)
    | inr (inr e) ↦ rw (e, match_signature) (Progress-refl h)
  ]

  process_signatures-Advances : (sigs : List BlockSignature) → Advances (process_signatures sigs)
  unfolding process_signature
  process_signatures-Advances [] h = Progress-refl h
  process_signatures-Advances (bs ∷ sigs) h =
      bind-Advances (process_signature bs) (λ _. process_signatures sigs)
        (bind-Advances (attempt (on_store (get_block bs.index))) (λ b. match_signature b bs)
          (attempt-Advances (get_block bs.index)) (λ b. match_signature-Advances b bs))
        (λ _. process_signatures-Advances sigs) h

  -- On every path, errors and panics included, processing the pool leaves the anchor block at or
  -- above where it was, and the pool holds no signature that it did not hold before.
  pub process_sig_pool-Progress : (h : Hashgraph) → Progress h (process_sig_pool h).1
  unfolding process_sig_pool
  process_sig_pool-Progress h = process_signatures-Advances (slice h.pending_signatures) h

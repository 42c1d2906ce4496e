-- ===== src/Hashgraph/Frames/Sorted.antt =====
-- The order of a frame's events does not depend on the order in which they came.
use babble.Base.{
  All, ◌⊎◌, subst, String, String-discrete, ℤ_discrete, ℕ_discrete, ◌≡◌, refl, sym, ◌∙◌, List, [],
  ◌∷◌, true, false, inl, inr, arith,
}
use mathlib.Core.List.{Permᴰ, Perm}
use mathlib.Core.Logic.{∥∥₁_elim}
use mathlib.Core.HLevel.{hedberg}
use babble.Common.Platform.{Platform}
use babble.Hashgraph.Event.{FrameEvent}
use babble.Hashgraph.Crypto.{Crypto}
use babble.Hashgraph.Frames.{frame_event_less, insert_frame_event_sorted, sort_frame_events}

module _ ⦃platform : Platform⦄ ⦃crypto : Crypto⦄ where
  less_asym : (a b : FrameEvent) → frame_event_less a b ≡ true → frame_event_less b a ≡ false
  unfolding frame_event_less
  less_asym a b h = ground (arith, h)

  not_less_trans :
      (a b c : FrameEvent)
      → frame_event_less b a ≡ false
      → frame_event_less c b ≡ false
      → frame_event_less c a ≡ false
  unfolding frame_event_less
  not_less_trans a b c h k = ground (arith, h, k)

  insert_swap :
      (x y : FrameEvent) (es : List FrameEvent)
      → (frame_event_less x y ≡ false → frame_event_less y x ≡ false → x ≡ y)
      → insert_frame_event_sorted x (insert_frame_event_sorted y es)
        ≡ insert_frame_event_sorted y (insert_frame_event_sorted x es)
  insert_swap x y [] same = ground (arith, same, less_asym x y, less_asym y x)
  insert_swap x y (e ∷ es) same = ground (
    arith,
    same,
    less_asym x y,
    less_asym y x,
    not_less_trans y x e,
    not_less_trans x y e,
    insert_swap x y es same,
  )

  -- One comes before the other, or they are the same.
  abbrev pub Compares : FrameEvent → FrameEvent → Type 0
  Compares a b = (frame_event_less a b ≡ true) ⊎ (frame_event_less b a ≡ true) ⊎ (a ≡ b)

  Compares-sym : (a b : FrameEvent) → Compares a b → Compares b a
  Compares-sym a b (inl p) = inr (inl p)
  Compares-sym a b (inr (inl p)) = inl p
  Compares-sym a b (inr (inr p)) = inr (inr (sym p))

  same_if_neither :
      (a b : FrameEvent)
      → Compares a b
      → frame_event_less a b ≡ false
      → frame_event_less b a ≡ false
      → a ≡ b
  same_if_neither a b (inl p) m n = absurd (cc (p, m))
  same_if_neither a b (inr (inl p)) m n = absurd (cc (p, n))
  same_if_neither a b (inr (inr p)) m n = p

  abbrev pub Comparable : List FrameEvent → Type 0
  Comparable [] = Unit
  Comparable (e ∷ es) = All (Compares e) es × Comparable es

  All-Permᴰ :
      (P : FrameEvent → Type 0) {es fs : List FrameEvent} → Permᴰ es fs → All P es → All P fs
  All-Permᴰ P Permᴰ.nil h = tt
  All-Permᴰ P (Permᴰ.cons e p) h = (subst P e h.0, All-Permᴰ P p h.1)
  All-Permᴰ P (Permᴰ.swap e f) h = (subst P f h.1.0, (subst P e h.0, h.1.1))
  All-Permᴰ P (Permᴰ.trans p q) h = All-Permᴰ P q (All-Permᴰ P p h)

  Comparable-Permᴰ : {es fs : List FrameEvent} → Permᴰ es fs → Comparable es → Comparable fs
  Comparable-Permᴰ Permᴰ.nil c = tt
  Comparable-Permᴰ (Permᴰ.cons {b} {l₂} e p) c =
      (subst (λ a. All (Compares a) l₂) e (All-Permᴰ _ p c.0), Comparable-Permᴰ p c.1)
  Comparable-Permᴰ (Permᴰ.swap {a} {b} {a'} {b'} {l} e f) c = (
    subst (λ s. Compares s b' × All (Compares s) l) f
        (subst (λ t. Compares b t) e (Compares-sym a b c.0.0), c.1.0),
    (subst (λ t. All (Compares t) l) e c.0.1, c.1.1),
  )
  Comparable-Permᴰ (Permᴰ.trans p q) c = Comparable-Permᴰ q (Comparable-Permᴰ p c)

  sort_permuted :
      {es fs : List FrameEvent}
      → Permᴰ es fs
      → Comparable es
      → sort_frame_events es ≡ sort_frame_events fs
  unfolding sort_frame_events
  sort_permuted Permᴰ.nil c = refl
  sort_permuted (Permᴰ.cons e p) c = rw (e, sort_permuted p c.1) refl
  sort_permuted (Permᴰ.swap {a} {b} {l} e f) c =
      rw (sym e, sym f) (insert_swap a b (sort_frame_events l) (same_if_neither a b c.0.0))
  sort_permuted (Permᴰ.trans p q) c = sort_permuted p c ∙ sort_permuted q (Comparable-Permᴰ p c)

  texts_set : IsSet String
  texts_set = hedberg String-discrete

  lists_set : IsSet (List FrameEvent)
  lists_set = hlevel (texts_set, ℤ_discrete, ℕ_discrete)

  -- Two lists of the same frame events in whatever order are sorted into the same list, as long as
  -- different events differ in their timestamp or in the first number of their signature.
  pub sort_frame_events_canonical :
      (es fs : List FrameEvent)
      → Perm es fs
      → Comparable es
      → sort_frame_events es ≡ sort_frame_events fs
  sort_frame_events_canonical es fs p c = ∥∥₁_elim p (lists_set _ _) (λ d. sort_permuted d c)

-- ===== src/Hashgraph/Rounds/Total.antt =====
-- The rounds, the witnesses and the timestamps of a hashgraph whose events have their parents before
-- them, with enough fuel.
use babble.Base.{
  ◌⊎◌, inr, inl, ℕ, zero, suc, ◌<◌, ◌≡◌, refl, ◌∙◌, sym, ℤ, minus_one, String, List, [], ◌∷◌,
  lookup, Option, some, none, is_some, Bool, true, false, arith, string_key, int_key,
}
use babble.Common.Errors.{text, number, Label, Result, ok, err, panic}
use babble.Common.Exec.{Exec, pure, attempt, ◌>>◌, modify}
use babble.Common.Exec.Total.{
  Gives, Gives-NoPanic, Any, NoPanic, Returns, IsTotal, bind-Returns, bind-IsTotal, attempt-Returns,
}
use babble.Common.Platform.{Platform}
use babble.Common.Lru
use babble.Common.Lru.Contents.{peek-get}
use babble.Peers.PeerSet.{PeerSet}
use babble.Hashgraph.Event.{Event, creator}
use babble.Hashgraph.Crypto.{Crypto}
use babble.Hashgraph.Block.{peers_hash}
use babble.Hashgraph.RoundInfo.{witnesses}
use babble.Hashgraph.PeerSetCache.Lookup.{IsIndexed, get_peer_set-NoPanic}
use babble.Hashgraph.InmemStore.{InmemStore, get_event, get_round, found}
use babble.Hashgraph.State.{Hashgraph, triple_key, on_store}
use babble.Hashgraph.Ancestry.{
  same_text, or_computed, strongly_see, compute_strongly_see, keep_strongly_see,
}
use babble.Hashgraph.Rounds.{
  peer_set_at, of_parent, larger, keep_round, keep_witness, keep_timestamp, strongly_seen,
  above_parents, compute_round, round, first_of_round, compute_witness, witness, if_known,
  known_timestamp, compute_timestamp, lamport_timestamp,
}

-- there is no parent, or it is of lower rank
abbrev pub IsBelow : (String → ℕ) → String → String → Type 0
IsBelow rank parent x = (same_text parent "" ≡ true) ⊎ (rank parent < rank x)

below :
    (rank : String → ℕ) (parent x : String)
    → IsBelow rank parent x
    → same_text parent "" ≡ false
    → rank parent < rank x
below rank parent x (inl none_there) b = absurd (cc (none_there, b))
below rank parent x (inr lt) b = lt

-- Every stored event has parents of lower rank, and the peer-sets of the rounds are there.
pub record IsRanked (rank : String → ℕ) (s : InmemStore) : Type 0 where
  pub parents :
      (x : String) (e : Event)
      → Lru.peek s.event_cache x ≡ some e
      → IsBelow rank e.body.self_parent x × IsBelow rank e.body.other_parent x
  pub peer_sets : IsIndexed s.peer_set_cache

-- an event with parents of lower rank than a text
abbrev pub HasLower : (String → ℕ) → String → Event → Type 0
HasLower rank x e = IsBelow rank e.body.self_parent x × IsBelow rank e.body.other_parent x

found-Gives :
    {A : Type 0} (o : Option A) (name : String) (l : Label) (Q : A → Type 0)
    → ((a : A) → o ≡ some a → Q a)
    → Gives Q (found o name l)
found-Gives none name l Q f = tt
found-Gives (some a) name l Q f = f a refl

module _ (rank : String → ℕ) where
  -- the invariant of the store, in a hashgraph
  abbrev pub Ready : Hashgraph → Type 0
  Ready h = IsRanked rank h.store

  pub get_event-Returns : (x : String) → Returns (IsRanked rank) (HasLower rank x) (get_event x)
  unfolding get_event
  get_event-Returns x s p = (
    record {
      parents = λ q e there. p.parents q e (sym (peek-get s.event_cache x q).1 ∙ there);
      peer_sets = p.peer_sets;
    },
    found-Gives (Lru.get s.event_cache x).1 "EventCache" (text x) (HasLower rank x)
        (λ e there. p.parents x e (sym (peek-get s.event_cache x x).0 ∙ there)),
  )

  pub get_event-IsTotal : (x : String) → IsTotal (IsRanked rank) (get_event x)
  get_event-IsTotal x s p =
      let (q, g) = get_event-Returns x s p in (q, Gives-NoPanic (HasLower rank x) _ g)

  pub get_round-IsTotal : (r : ℤ) → IsTotal (IsRanked rank) (get_round r)
  unfolding get_round
  get_round-IsTotal r s p = (
    record { parents = p.parents; peer_sets = p.peer_sets },
    found-Gives (Lru.get s.round_cache r).1 "RoundCache" (number r) Any (λ i there. tt),
  )

  pub peer_set_at-IsTotal : (r : ℤ) → IsTotal Ready (peer_set_at r)
  peer_set_at-IsTotal r h p = (p, get_peer_set-NoPanic h.store.peer_set_cache r p.peer_sets)

  -- a method of the store, in the hashgraph
  pub on_store-Returns :
      {A : Type 0} (Q : A → Type 0) (m : Exec InmemStore A)
      → Returns (IsRanked rank) Q m
      → Returns Ready Q (on_store m)
  on_store-Returns Q m t h p = t h.store p

  -- the answer of a cache, or the computed one
  or_computed-IsTotal :
      {A : Type 0} (c : Option A) (compute : Exec Hashgraph A) (keep : A → Hashgraph → Hashgraph)
      → IsTotal Ready compute
      → ((a : A) (h : Hashgraph) → Ready h → Ready (keep a h))
      → IsTotal Ready (or_computed c compute keep)
  or_computed-IsTotal none compute keep t k h p =
      bind-IsTotal Ready Any compute (λ a. modify (keep a) >> pure a) t (λ a g q. (k a g q, tt)) h p
  or_computed-IsTotal (some c) compute keep t k h p = (p, tt)

  of_parent-IsTotal :
      (b : Bool) (f : String → Exec Hashgraph ℤ) (parent : String) (default : ℤ)
      → (b ≡ false → IsTotal Ready (f parent))
      → IsTotal Ready (of_parent b f parent default)
  of_parent-IsTotal true f parent default t h p = (p, tt)
  of_parent-IsTotal false f parent default t h p = t refl h p

  module _ ⦃platform : Platform⦄ ⦃crypto : Crypto⦄ where
    strongly_see-IsTotal : (x y : String) (ps : PeerSet) → IsTotal Ready (strongly_see x y ps)
    unfolding strongly_see compute_strongly_see
    strongly_see-IsTotal x y ps h p =
        or_computed-IsTotal
          (Lru.get h.strongly_see_cache
            (record { x = x; y = y; z = platform.encode_hex (peers_hash ps) })).1
          (on_store (compute_strongly_see x y ps)) (keep_strongly_see _)
          (on_store-Returns Any (compute_strongly_see x y ps) (
            bind-IsTotal (IsRanked rank) Any (get_event x) _ (get_event-IsTotal x) (λ ex.
              bind-IsTotal (IsRanked rank) Any (get_event y) _ (get_event-IsTotal y)
                (λ ey s q. (q, tt)))))
          (λ a g q. q) _ p

    pub strongly_seen-IsTotal :
        (y : String) (ws : List String) (ps : PeerSet) → IsTotal Ready (strongly_seen y ws ps)
    unfolding strongly_seen
    strongly_seen-IsTotal y [] ps h p = (p, tt)
    strongly_seen-IsTotal y (w ∷ ws) ps h p =
        bind-IsTotal Ready Any (strongly_see y w ps) _ (strongly_see-IsTotal y w ps)
          (λ ss.
            bind-IsTotal Ready Any (strongly_seen y ws ps) _ (strongly_seen-IsTotal y ws ps)
              (λ seen g q. (q, tt)))
          h p

    above_parents-IsTotal : (b : Bool) (x : String) (r : ℤ) → IsTotal Ready (above_parents b x r)
    above_parents-IsTotal true x r h p = (p, tt)
    above_parents-IsTotal false x r h p =
        bind-IsTotal Ready Any (on_store (get_round r)) _
          (on_store-Returns Any (get_round r) (get_round-IsTotal r))
          (λ info. bind-IsTotal Ready Any (peer_set_at r) _ (peer_set_at-IsTotal r) (λ ps.
            bind-IsTotal Ready Any (strongly_seen x (witnesses info) ps) _
              (strongly_seen-IsTotal x (witnesses info) ps) (λ seen g q. (q, tt))))
          h p

    -- the recursive calls are for texts of lower rank
    compute_round-IsTotal :
        (f : String → Exec Hashgraph ℤ) (x : String)
        → ((y : String) → rank y < rank x → IsTotal Ready (f y))
        → IsTotal Ready (compute_round f x)
    unfolding compute_round
    compute_round-IsTotal f x t =
        bind-Returns Ready (HasLower rank x) Any (on_store (get_event x)) _
          (on_store-Returns (HasLower rank x) (get_event x) (get_event-Returns x))
          (λ e lower.
            bind-IsTotal Ready Any _ _
              (of_parent-IsTotal (same_text e.body.self_parent "") f e.body.self_parent minus_one
                (λ b. t e.body.self_parent (below rank e.body.self_parent x lower.0 b)))
              (λ sp.
                bind-IsTotal Ready Any _ _
                  (of_parent-IsTotal (same_text e.body.other_parent "") f e.body.other_parent sp
                    (λ b. t e.body.other_parent (below rank e.body.other_parent x lower.1 b)))
                  (λ op. above_parents-IsTotal _ x (larger sp op))))

    pub round-IsTotal : (n : ℕ) (x : String) → rank x < n → IsTotal Ready (round n x)
    unfolding round
    round-IsTotal zero x lt h p = ground (arith, lt)
    round-IsTotal (suc n) x lt h p =
        or_computed-IsTotal (Lru.get h.round_cache x).1 (compute_round (round n) x) (keep_round x)
          (compute_round-IsTotal (round n) x
            (λ y below. round-IsTotal n y (omega (arith, lt, below))))
          (λ a g q. q) (record h { round_cache = (Lru.get h.round_cache x).0 }) p

    first_of_round-IsTotal :
        (b : Bool) (n : ℕ) (sp : String) (r : ℤ)
        → (same_text sp "" ≡ false → rank sp < n)
        → IsTotal Ready (first_of_round b n sp r)
    first_of_round-IsTotal false n sp r lt h p = (p, tt)
    first_of_round-IsTotal true n sp r lt h p =
        bind-IsTotal Ready Any (of_parent (same_text sp "") (round n) sp minus_one) _
          (of_parent-IsTotal (same_text sp "") (round n) sp minus_one
            (λ b. round-IsTotal n sp (lt b)))
          (λ s g q. (q, tt)) h p

    pub witness-IsTotal : (n : ℕ) (x : String) → rank x < n → IsTotal Ready (witness n x)
    unfolding witness compute_witness
    witness-IsTotal n x lt h p =
        or_computed-IsTotal (Lru.get h.witness_cache x).1 (compute_witness n x) (keep_witness x)
          (bind-Returns Ready (HasLower rank x) Any (on_store (get_event x)) _
            (on_store-Returns (HasLower rank x) (get_event x) (get_event-Returns x))
            (λ e lower. bind-IsTotal Ready Any (round n x) _ (round-IsTotal n x lt) (λ r.
              bind-IsTotal Ready Any (peer_set_at r) _ (peer_set_at-IsTotal r) (λ ps.
                first_of_round-IsTotal (is_some (lookup ps.by_pub_key (creator e))) n
                  e.body.self_parent r
                  (λ b. omega (arith, lt, below rank e.body.self_parent x lower.0 b))))))
          (λ a g q. q) (record h { witness_cache = (Lru.get h.witness_cache x).0 }) p

    known_timestamp-IsTotal :
        (f : String → Exec Hashgraph ℤ) (x : String)
        → IsTotal Ready (f x)
        → IsTotal Ready (known_timestamp f x)
    known_timestamp-IsTotal f x t =
        bind-Returns Ready NoPanic Any (attempt (on_store (get_event x))) (if_known f x)
          (attempt-Returns Ready Any (on_store (get_event x))
            (on_store-Returns Any (get_event x) (get_event-IsTotal x)))
          (λ r n. if_known-IsTotal r n)
      where
        if_known-IsTotal : (r : Result Event) → NoPanic r → IsTotal Ready (if_known f x r)
        if_known-IsTotal (ok e) n h p = t h p
        if_known-IsTotal (err e) n h p = (p, tt)
        if_known-IsTotal panic n h p = elim n [ ]

    compute_timestamp-IsTotal :
        (f : String → Exec Hashgraph ℤ) (x : String)
        → ((y : String) → rank y < rank x → IsTotal Ready (f y))
        → IsTotal Ready (compute_timestamp f x)
    unfolding compute_timestamp
    compute_timestamp-IsTotal f x t =
        bind-Returns Ready (HasLower rank x) Any (on_store (get_event x)) _
          (on_store-Returns (HasLower rank x) (get_event x) (get_event-Returns x))
          (λ e lower.
            bind-IsTotal Ready Any _ _
              (of_parent-IsTotal (same_text e.body.self_parent "") f e.body.self_parent minus_one
                (λ b. t e.body.self_parent (below rank e.body.self_parent x lower.0 b)))
              (λ sp.
                bind-IsTotal Ready Any _ _
                  (of_parent-IsTotal (same_text e.body.other_parent "") (known_timestamp f)
                    e.body.other_parent sp
                    (λ b.
                      known_timestamp-IsTotal f e.body.other_parent
                        (t e.body.other_parent (below rank e.body.other_parent x lower.1 b))))
                  (λ op g q. (q, tt))))

    pub lamport_timestamp-IsTotal :
        (n : ℕ) (x : String) → rank x < n → IsTotal Ready (lamport_timestamp n x)
    unfolding lamport_timestamp
    lamport_timestamp-IsTotal zero x lt h p = ground (arith, lt)
    lamport_timestamp-IsTotal (suc n) x lt h p =
        or_computed-IsTotal (Lru.get h.timestamp_cache x).1
          (compute_timestamp (lamport_timestamp n) x) (keep_timestamp x)
          (compute_timestamp-IsTotal (lamport_timestamp n) x
            (λ y below. lamport_timestamp-IsTotal n y (omega (arith, lt, below))))
          (λ a g q. q) (record h { timestamp_cache = (Lru.get h.timestamp_cache x).0 }) p

    -- If the stored events have their parents at a lower rank, then fuel above the rank of an event is
    -- enough for its round, its timestamp and whether it is a witness: each is a value or an error.
    pub rounds_return :
        (n : ℕ) (x : String) (h : Hashgraph)
        → IsRanked rank h.store
        → rank x < n
        → NoPanic (round n x h).0 × NoPanic (witness n x h).0 × NoPanic (lamport_timestamp n x h).0
    rounds_return n x h p lt = (
      (round-IsTotal n x lt h p).1,
      (witness-IsTotal n x lt h p).1,
      (lamport_timestamp-IsTotal n x lt h p).1,
    )

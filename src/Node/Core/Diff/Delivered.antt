-- ===== src/Node/Core/Diff/Delivered.antt =====
-- What eventDiff returns, by what it should read from the store.
use babble.Base.{
  ◌≡◌, refl, ◌∙◌, ap, ℕ, ℤ, String, List, [], ◌∷◌, ◌++◌, GoMap, lookup, nat_key, string_key, Option,
  none, some,
}
use mathlib.Core.List.{Permᴰ}
use babble.Common.Errors.{Result, ok, err, panic, text, ◌>>=◌}
use babble.Common.Exec
use babble.Common.Exec.{Exec}
use babble.Common.Lru.{peek}
use babble.Common.Lru.Contents.{peek-get}
use babble.Common.Platform.{Platform}
use babble.Peers.Peer.{Peer, pub_key_string}
use babble.Hashgraph.Event.{Event}
use babble.Hashgraph.PeerSetCache.{PeerSetCache}
use babble.Hashgraph.ParticipantEvents.{known_events, events_after}
use babble.Hashgraph.InmemStore.{InmemStore, get_event, found}
use babble.Node.Core.Diff.Sorted.{
  IsTopological, sort_topological-IsTopological, sort_topological-Perm,
}
use babble.Node.Core.Diff.{
  known_or_none, get_events, sort_topological, unknown_of, unknown_events, event_diff,
}

-- all that is found for the entries of a list, or the first failure
abbrev pub all_of : {A B : Type 0} → (A → Result (List B)) → List A → Result (List B)
all_of f [] = ok []
all_of f (x ∷ xs) = f x >>= λ ys. all_of f xs >>= λ zs. ok (ys ++ zs)

-- the event that the store has under a hash
abbrev pub stored_event : InmemStore → String → Result (List Event)
stored_event s hash = found (peek s.event_cache hash) "EventCache" (text hash) >>= λ e. ok (e ∷ [])

module _ ⦃platform : Platform⦄ where
  -- the events of a participant after the last that another node knows
  abbrev pub missing_of : InmemStore → Option Peer → ℤ → Result (List Event)
  missing_of s none skip = ok []
  missing_of s (some peer) skip =
      events_after s.participant_events_cache (pub_key_string peer) skip >>= λ hashes.
      all_of (stored_event s) hashes

  -- the events that another node misses, participant by participant
  abbrev pub missing_events : GoMap ℕ ℤ → InmemStore → Result (List Event)
  missing_events other_known s =
      all_of
        (λ (e : ℕ × ℤ).
          missing_of s (lookup s.peer_set_cache.repertoire_by_id e.0)
            (known_or_none (lookup other_known e.0)))
        (known_events s.participant_events_cache)

-- the same events in the order of their topological indexes, or the same failure
abbrev pub Delivers : Result (List Event) → Result (List Event) → Type 0
Delivers (ok missing) (ok es) = Permᴰ missing es × IsTopological es
Delivers (err e) (err f) = e ≡ f
Delivers panic panic = Unit
Delivers _ _ = ⊥

-- a store of which the same is to be read
record SameView (s t : InmemStore) : Type 0 where
  events : (k : String) → peek t.event_cache k ≡ peek s.event_cache k
  participants : t.participant_events_cache ≡ s.participant_events_cache
  peer_sets : t.peer_set_cache ≡ s.peer_set_cache

SameView-refl : (s : InmemStore) → SameView s s
SameView-refl s = record { events = λ k. refl; participants = refl; peer_sets = refl }

-- a method that returns what a function of the store says, and leaves it to be read again
unfoldable Reads : {A : Type 0} → (InmemStore → Result A) → Exec InmemStore A → Type 0
Reads f m = (s t : InmemStore) → SameView s t → ((m t).0 ≡ f s) × SameView s (m t).1

make-Reads :
    {A : Type 0} (f : InmemStore → Result A) (m : Exec InmemStore A)
    → ((s t : InmemStore) → SameView s t → ((m t).0 ≡ f s) × SameView s (m t).1)
    → Reads f m
unfolding Reads
make-Reads f m r = r

continue-Reads :
    {A B : Type 0} (g : A → InmemStore → Result B) (k : A → Exec InmemStore B)
    → ((a : A) → Reads (g a) (k a))
    → (r : Result A) (s t : InmemStore) → SameView s t
    → ((Exec.continue r k t).0 ≡ (r >>= λ a. g a s)) × SameView s (Exec.continue r k t).1
unfolding Reads
continue-Reads g k q (ok a) s t v = q a s t v
continue-Reads g k q (err e) s t v = (refl, v)
continue-Reads g k q panic s t v = (refl, v)

bind-Reads :
    {A B : Type 0} (f : InmemStore → Result A) (g : A → InmemStore → Result B)
    (m : Exec InmemStore A) (k : A → Exec InmemStore B)
    → Reads f m
    → ((a : A) → Reads (g a) (k a))
    → Reads (λ s. f s >>= λ a. g a s) (Exec.◌>>=◌ m k)
unfolding Reads
bind-Reads f g m k r q s t v =
    let (same, view) = r s t v in
    let (rest, last) = continue-Reads g k q (m t).0 s (m t).1 view in
    (rest ∙ ap (λ x. x >>= λ a. g a s) same, last)

pure-Reads : {A : Type 0} (a : A) → Reads (λ s. ok a) (Exec.pure a)
unfolding Reads
pure-Reads a s t v = (refl, v)

lift-Reads : {A : Type 0} (r : Result A) → Reads (λ s. r) (Exec.lift r)
unfolding Reads
lift-Reads r s t v = (refl, v)

get_event-Reads :
    (key : String)
    → Reads (λ s. found (peek s.event_cache key) "EventCache" (text key)) (get_event key)
unfolding Reads get_event
get_event-Reads key s t v = (
  ap (λ o. found o "EventCache" (text key)) ((peek-get t.event_cache key key).0 ∙ v.events key),
  record {
    events = λ k. (peek-get t.event_cache key k).1 ∙ v.events k;
    participants = v.participants;
    peer_sets = v.peer_sets;
  },
)

get_events-Reads : (xs : List String) → Reads (λ s. all_of (stored_event s) xs) (get_events xs)
unfolding Reads
get_events-Reads [] s t v = (refl, v)
get_events-Reads (x ∷ xs) s t v =
    let (same, view) =
      bind-Reads (λ s. found (peek s.event_cache x) "EventCache" (text x))
        (λ ev s. all_of (stored_event s) xs >>= λ evs. ok (ev ∷ evs)) (get_event x)
        (λ ev. Exec.◌>>=◌ (get_events xs) (λ evs. Exec.pure (ev ∷ evs))) (get_event-Reads x)
        (λ ev.
          bind-Reads (λ s. all_of (stored_event s) xs) (λ evs s. ok (ev ∷ evs)) (get_events xs)
            (λ evs. Exec.pure (ev ∷ evs)) (get_events-Reads xs) (λ evs. pure-Reads (ev ∷ evs)))
        s t v in
    (same ∙ one_by_one (found (peek s.event_cache x) "EventCache" (text x)), view)
  where
    one_by_one :
        (r : Result Event)
        → (r >>= λ ev. all_of (stored_event s) xs >>= λ evs. ok (ev ∷ evs))
          ≡ ((r >>= λ e. ok (e ∷ [])) >>= λ ys. all_of (stored_event s) xs >>= λ zs. ok (ys ++ zs))
    one_by_one (ok e) = refl
    one_by_one (err e) = refl
    one_by_one panic = refl

module _ ⦃platform : Platform⦄ where
  unknown_of-Reads :
      (o : Option Peer) (skip : ℤ) → Reads (λ s. missing_of s o skip) (unknown_of o skip)
  unfolding Reads
  unknown_of-Reads none skip s t v = (refl, v)
  unknown_of-Reads (some peer) skip s t v =
      let (same, view) =
        bind-Reads (λ s. events_after s.participant_events_cache (pub_key_string peer) skip)
          (λ hashes s. all_of (stored_event s) hashes)
          (λ t. (events_after t.participant_events_cache (pub_key_string peer) skip, t)) get_events
          (λ s t v. (ap (λ c. events_after c (pub_key_string peer) skip) v.participants, v))
          get_events-Reads s t v in
      (same, view)

  unknown_events-Reads :
      (other_known known : GoMap ℕ ℤ)
      → Reads
          (λ s.
            all_of
              (λ (e : ℕ × ℤ).
                missing_of s
                  (lookup s.peer_set_cache.repertoire_by_id e.0)
                  (known_or_none (lookup other_known e.0)))
              known)
          (unknown_events other_known known)
  unfolding Reads
  unknown_events-Reads other_known [] s t v = (refl, v)
  unknown_events-Reads other_known ((id, last) ∷ known) s t v =
      bind-Reads (λ s. ok (lookup s.peer_set_cache.repertoire_by_id id))
        (λ peer s. missing_of s peer (known_or_none (lookup other_known id)) >>= λ evs.
          after_these s >>= λ more. ok (evs ++ more))
        (Exec.gets (λ (s : InmemStore). lookup s.peer_set_cache.repertoire_by_id id))
        (λ peer.
          Exec.◌>>=◌ (unknown_of peer (known_or_none (lookup other_known id))) (λ evs.
            Exec.◌>>=◌ (unknown_events other_known known) (λ more. Exec.pure (evs ++ more))))
        (λ s t v. (ap (λ (c : PeerSetCache). ok (lookup c.repertoire_by_id id)) v.peer_sets, v))
        (λ peer.
          bind-Reads (λ s. missing_of s peer (known_or_none (lookup other_known id)))
            (λ evs s. after_these s >>= λ more. ok (evs ++ more))
            (unknown_of peer (known_or_none (lookup other_known id)))
            (λ evs. Exec.◌>>=◌ (unknown_events other_known known) (λ more. Exec.pure (evs ++ more)))
            (unknown_of-Reads peer (known_or_none (lookup other_known id)))
            (λ evs.
              bind-Reads after_these (λ more s. ok (evs ++ more)) (unknown_events other_known known)
                (λ more. Exec.pure (evs ++ more)) (unknown_events-Reads other_known known)
                (λ more. pure-Reads (evs ++ more))))
        s t v
    where
      after_these : InmemStore → Result (List Event)
      after_these s =
          all_of
            (λ (e : ℕ × ℤ).
              missing_of s (lookup s.peer_set_cache.repertoire_by_id e.0)
                (known_or_none (lookup other_known e.0)))
            known

  delivered : (r : Result (List Event)) → Delivers r (r >>= λ es. ok (sort_topological es))
  delivered (ok es) = (sort_topological-Perm es, sort_topological-IsTopological es)
  delivered (err e) = refl
  delivered panic = tt

  -- From every store and for whatever another node knows, eventDiff returns the events of the
  -- participants in the repertoire that come after the last one that the other node knows, or after -1,
  -- no more and no fewer, in such an order that their topological indexes do not go down. If an event has been dropped from the caches or a participant's events cannot be read, it
  -- returns the error of the first such failure.
  pub event_diff-Delivers :
      (other_known : GoMap ℕ ℤ) (s : InmemStore)
      → Delivers (missing_events other_known s) (event_diff other_known s).0
  unfolding Reads event_diff
  event_diff-Delivers other_known s =
      let known = known_events s.participant_events_cache in
      let (same, view) =
        bind-Reads _ (λ es s. ok (sort_topological es)) (unknown_events other_known known)
          (λ es. Exec.pure (sort_topological es)) (unknown_events-Reads other_known known)
          (λ es. pure-Reads (sort_topological es)) s s (SameView-refl s) in
      rw same (delivered (missing_events other_known s))

-- ===== src/Hashgraph/Rounds/Quiet.antt =====
-- The ancestry, the rounds, the witnesses and the timestamps only change the caches.
use babble.Base.{
  ◌≡◌, ◌∙◌, refl, ℕ, zero, suc, ℤ, String, List, [], ◌∷◌, Option, some, none, Bool, true, false,
  minus_one, is_some, lookup, string_key,
}
use babble.Common.Errors.{Result, ok, err, panic}
use babble.Common.Exec.{Exec, pure, attempt, modify, ◌>>◌}
use babble.Common.Platform.{Platform}
use babble.Common.Lru
use babble.Peers.PeerSet.{PeerSet}
use babble.Hashgraph.Event.{Event, creator}
use babble.Hashgraph.Crypto.{Crypto}
use babble.Hashgraph.Block.{peers_hash}
use babble.Hashgraph.RoundInfo.{witnesses}
use babble.Hashgraph.PeerSetCache.{get_peer_set}
use babble.Hashgraph.InmemStore.{get_event, get_round}
use babble.Hashgraph.State.{Hashgraph, TripleKey, pair_key, triple_key, on_store}
use babble.Hashgraph.State.Quiet.{
  ledger, IsQuiet, make-IsQuiet, ledger_stays, pure-IsQuiet, read-IsQuiet, on_store-IsQuiet,
  attempt-IsQuiet, bind-IsQuiet,
}
use babble.Hashgraph.Ancestry.{
  same_text, or_computed, ancestor, compute_ancestor, see, strongly_see, compute_strongly_see,
}
use babble.Hashgraph.Rounds.{
  peer_set_at, of_parent, strongly_seen, above_parents, compute_round, round, first_of_round,
  compute_witness, witness, if_known, known_timestamp, compute_timestamp, lamport_timestamp,
}

or_computed-IsQuiet :
    {A : Type 0} (c : Option A) (compute : Exec Hashgraph A) (keep : A → Hashgraph → Hashgraph)
    → IsQuiet compute
    → ((a : A) → IsQuiet (modify (keep a)))
    → IsQuiet (or_computed c compute keep)
or_computed-IsQuiet none compute keep t k =
    bind-IsQuiet compute (λ a. modify (keep a) >> pure a) t
      (λ a. bind-IsQuiet (modify (keep a)) (λ _. pure a) (k a) (λ _. pure-IsQuiet a))
or_computed-IsQuiet (some c) compute keep t k = pure-IsQuiet c

-- a method that looks into a cache first, which moves the entry
cached-IsQuiet :
    {A : Type 0} (look : Hashgraph → Option A) (moved : Hashgraph → Hashgraph)
    (compute : Exec Hashgraph A) (keep : A → Hashgraph → Hashgraph)
    → ((h : Hashgraph) → ledger (moved h) ≡ ledger h)
    → IsQuiet compute
    → ((a : A) → IsQuiet (modify (keep a)))
    → IsQuiet (λ h. or_computed (look h) compute keep (moved h))
cached-IsQuiet look moved compute keep same t k =
    make-IsQuiet _
      (λ h. ledger_stays _ (or_computed-IsQuiet (look h) compute keep t k) (moved h) ∙ same h)

of_parent-IsQuiet :
    (b : Bool) (f : String → Exec Hashgraph ℤ) (parent : String) (default : ℤ)
    → ((x : String) → IsQuiet (f x))
    → IsQuiet (of_parent b f parent default)
of_parent-IsQuiet true f parent default t = read-IsQuiet _
of_parent-IsQuiet false f parent default t = t parent

pub peer_set_at-IsQuiet : (r : ℤ) → IsQuiet (peer_set_at r)
peer_set_at-IsQuiet r = read-IsQuiet (λ h. get_peer_set h.store.peer_set_cache r)

module _ ⦃platform : Platform⦄ where
  pub see-IsQuiet : (x y : String) → IsQuiet (see x y)
  unfolding see ancestor
  see-IsQuiet x y =
      cached-IsQuiet (λ h. (Lru.get h.ancestor_cache (record { x = x; y = y })).1)
        (λ h. record h { ancestor_cache = (Lru.get h.ancestor_cache (record { x = x; y = y })).0 })
        _ _ (λ h. refl) (on_store-IsQuiet (compute_ancestor x y)) (λ a. make-IsQuiet _ (λ g. refl))

module _ ⦃platform : Platform⦄ ⦃crypto : Crypto⦄ where
  pub strongly_see-IsQuiet : (x y : String) (ps : PeerSet) → IsQuiet (strongly_see x y ps)
  unfolding strongly_see
  strongly_see-IsQuiet x y ps =
      let key : TripleKey = record { x = x; y = y; z = platform.encode_hex (peers_hash ps) } in
      cached-IsQuiet (λ h. (Lru.get h.strongly_see_cache key).1)
        (λ h. record h { strongly_see_cache = (Lru.get h.strongly_see_cache key).0 }) _ _
        (λ h. refl) (on_store-IsQuiet (compute_strongly_see x y ps))
        (λ a. make-IsQuiet _ (λ g. refl))

  pub strongly_seen-IsQuiet :
      (y : String) (ws : List String) (ps : PeerSet) → IsQuiet (strongly_seen y ws ps)
  unfolding strongly_seen
  strongly_seen-IsQuiet y [] ps = read-IsQuiet _
  strongly_seen-IsQuiet y (w ∷ ws) ps =
      bind-IsQuiet (strongly_see y w ps) _ (strongly_see-IsQuiet y w ps) (λ ss.
        bind-IsQuiet (strongly_seen y ws ps) _ (strongly_seen-IsQuiet y ws ps)
          (λ seen. read-IsQuiet _))

  above_parents-IsQuiet : (b : Bool) (x : String) (r : ℤ) → IsQuiet (above_parents b x r)
  above_parents-IsQuiet true x r = read-IsQuiet _
  above_parents-IsQuiet false x r =
      bind-IsQuiet (on_store (get_round r)) _ (on_store-IsQuiet (get_round r)) (λ info.
        bind-IsQuiet (peer_set_at r) _ (peer_set_at-IsQuiet r) (λ ps.
          bind-IsQuiet (strongly_seen x (witnesses info) ps) _
            (strongly_seen-IsQuiet x (witnesses info) ps) (λ seen. read-IsQuiet _)))

  compute_round-IsQuiet :
      (f : String → Exec Hashgraph ℤ) (x : String)
      → ((y : String) → IsQuiet (f y))
      → IsQuiet (compute_round f x)
  unfolding compute_round
  compute_round-IsQuiet f x t =
      bind-IsQuiet (on_store (get_event x)) _ (on_store-IsQuiet (get_event x)) (λ e.
        bind-IsQuiet (of_parent (same_text e.body.self_parent "") f e.body.self_parent minus_one) _
          (of_parent-IsQuiet (same_text e.body.self_parent "") f e.body.self_parent minus_one t)
          (λ sp.
            bind-IsQuiet (of_parent (same_text e.body.other_parent "") f e.body.other_parent sp) _
              (of_parent-IsQuiet (same_text e.body.other_parent "") f e.body.other_parent sp t)
              (λ op. above_parents-IsQuiet _ x _)))

  pub round-IsQuiet : (n : ℕ) (x : String) → IsQuiet (round n x)
  unfolding round
  round-IsQuiet zero x = read-IsQuiet _
  round-IsQuiet (suc n) x =
      cached-IsQuiet (λ h. (Lru.get h.round_cache x).1)
        (λ h. record h { round_cache = (Lru.get h.round_cache x).0 }) _ _ (λ h. refl)
        (compute_round-IsQuiet (round n) x (round-IsQuiet n)) (λ a. make-IsQuiet _ (λ g. refl))

  first_of_round-IsQuiet :
      (b : Bool) (n : ℕ) (sp : String) (r : ℤ) → IsQuiet (first_of_round b n sp r)
  first_of_round-IsQuiet false n sp r = read-IsQuiet _
  first_of_round-IsQuiet true n sp r =
      bind-IsQuiet (of_parent (same_text sp "") (round n) sp minus_one) _
        (of_parent-IsQuiet (same_text sp "") (round n) sp minus_one (round-IsQuiet n))
        (λ s. read-IsQuiet _)

  pub witness-IsQuiet : (n : ℕ) (x : String) → IsQuiet (witness n x)
  unfolding witness compute_witness
  witness-IsQuiet n x =
      cached-IsQuiet (λ h. (Lru.get h.witness_cache x).1)
        (λ h. record h { witness_cache = (Lru.get h.witness_cache x).0 }) _ _ (λ h. refl)
        (bind-IsQuiet (on_store (get_event x)) _ (on_store-IsQuiet (get_event x)) (λ e.
          bind-IsQuiet (round n x) _ (round-IsQuiet n x) (λ r.
            bind-IsQuiet (peer_set_at r) _ (peer_set_at-IsQuiet r) (λ ps.
              first_of_round-IsQuiet (is_some (lookup ps.by_pub_key (creator e))) n
                e.body.self_parent r))))
        (λ a. make-IsQuiet _ (λ g. refl))

  known_timestamp-IsQuiet :
      (f : String → Exec Hashgraph ℤ) (x : String)
      → ((y : String) → IsQuiet (f y))
      → IsQuiet (known_timestamp f x)
  known_timestamp-IsQuiet f x t =
      bind-IsQuiet (attempt (on_store (get_event x))) (if_known f x)
        (attempt-IsQuiet (on_store (get_event x)) (on_store-IsQuiet (get_event x))) if_known-IsQuiet
    where
      if_known-IsQuiet : (r : Result Event) → IsQuiet (if_known f x r)
      if_known-IsQuiet (ok e) = t x
      if_known-IsQuiet (err e) = read-IsQuiet _
      if_known-IsQuiet panic = read-IsQuiet _

  compute_timestamp-IsQuiet :
      (f : String → Exec Hashgraph ℤ) (x : String)
      → ((y : String) → IsQuiet (f y))
      → IsQuiet (compute_timestamp f x)
  unfolding compute_timestamp
  compute_timestamp-IsQuiet f x t =
      bind-IsQuiet (on_store (get_event x)) _ (on_store-IsQuiet (get_event x)) (λ e.
        bind-IsQuiet (of_parent (same_text e.body.self_parent "") f e.body.self_parent minus_one) _
          (of_parent-IsQuiet (same_text e.body.self_parent "") f e.body.self_parent minus_one t)
          (λ sp.
            bind-IsQuiet
              (of_parent (same_text e.body.other_parent "") (known_timestamp f) e.body.other_parent
                sp)
              _
              (of_parent-IsQuiet (same_text e.body.other_parent "") (known_timestamp f)
                e.body.other_parent sp (λ y. known_timestamp-IsQuiet f y t))
              (λ op. read-IsQuiet _)))

  pub lamport_timestamp-IsQuiet : (n : ℕ) (x : String) → IsQuiet (lamport_timestamp n x)
  unfolding lamport_timestamp
  lamport_timestamp-IsQuiet zero x = read-IsQuiet _
  lamport_timestamp-IsQuiet (suc n) x =
      cached-IsQuiet (λ h. (Lru.get h.timestamp_cache x).1)
        (λ h. record h { timestamp_cache = (Lru.get h.timestamp_cache x).0 }) _ _ (λ h. refl)
        (compute_timestamp-IsQuiet (lamport_timestamp n) x (lamport_timestamp-IsQuiet n))
        (λ a. make-IsQuiet _ (λ g. refl))

-- ===== src/Hashgraph/Frames/Quiet.antt =====
-- Making a frame only changes the caches and the store.
use babble.Base.{
  refl, ℕ, zero, suc, ℤ, pos, ◌-ℤ◌, leb_ℤ, String, List, [], ◌∷◌, GoMap, lookup, Option, some, none,
  Bool, true, false, string_key, inl, inr, Bool-cases,
}
use babble.Common.Errors.{Result, ok, err, panic, is_store, key_not_found}
use babble.Common.Exec.{Exec, attempt, gets}
use babble.Common.Platform.{Platform}
use babble.Peers.Peer.{Peer, peer_id}
use babble.Hashgraph.Event.{FrameEvent, creator}
use babble.Hashgraph.Frame.{Frame, Root}
use babble.Hashgraph.Crypto.{Crypto}
use babble.Hashgraph.RoundInfo.{RoundEvent, famous_witnesses}
use babble.Hashgraph.PeerSetCache.{get_all, first_round}
use babble.Hashgraph.ParticipantEvents.{event_at}
use babble.Hashgraph.InmemStore
use babble.Hashgraph.InmemStore.{get_event, get_round, set_frame, last_consensus_event_from}
use babble.Hashgraph.State.{Hashgraph, on_store}
use babble.Hashgraph.State.Quiet.{
  IsQuiet, make-IsQuiet, ledger_stays, read-IsQuiet, on_store-IsQuiet, attempt-IsQuiet,
  bind-IsQuiet,
}
use babble.Hashgraph.Ancestry.{same_text}
use babble.Hashgraph.Rounds.{peer_set_at, round, lamport_timestamp}
use babble.Hashgraph.Rounds.Quiet.{peer_set_at-IsQuiet, round-IsQuiet, lamport_timestamp-IsQuiet}
use babble.Hashgraph.Insert.{renamed}
use babble.Hashgraph.Roots.{
  created_or_fail, create_frame_event, older_or_end, older_events, root_below, root_depth,
  create_root,
}
use babble.Hashgraph.Frames.{
  sort_frame_events, create_frame_events, root_unless, roots_of_events, joins_later, or_empty_text,
  root_of_known, roots_of_known, timestamps_of, frame_of, keep_frame, build_frame, stored_or_built,
  get_frame,
}

pub renamed-IsQuiet : {A : Type 0} (what : String) (r : Result A) → IsQuiet (renamed what r)
renamed-IsQuiet what (ok a) = read-IsQuiet _
renamed-IsQuiet what (err e) = read-IsQuiet _
renamed-IsQuiet what panic = read-IsQuiet _

created_or_fail-IsQuiet : (o : Option RoundEvent) → IsQuiet (created_or_fail o)
created_or_fail-IsQuiet none = read-IsQuiet _
created_or_fail-IsQuiet (some e) = read-IsQuiet _

module _ ⦃platform : Platform⦄ ⦃crypto : Crypto⦄ where
  create_frame_event-IsQuiet : (n : ℕ) (x : String) → IsQuiet (create_frame_event n x)
  unfolding create_frame_event
  create_frame_event-IsQuiet n x =
      bind-IsQuiet (attempt (on_store (get_event x))) _
        (attempt-IsQuiet (on_store (get_event x)) (on_store-IsQuiet (get_event x)))
        (λ stored.
          bind-IsQuiet (renamed "FrameEvent not found" stored) _
            (renamed-IsQuiet "FrameEvent not found" stored)
            (λ ev. bind-IsQuiet (round n x) _ (round-IsQuiet n x) (λ r.
              bind-IsQuiet (on_store (get_round r)) _ (on_store-IsQuiet (get_round r)) (λ info.
                bind-IsQuiet (created_or_fail (lookup info.created_events x)) _
                  (created_or_fail-IsQuiet (lookup info.created_events x))
                  (λ te.
                    bind-IsQuiet (lamport_timestamp n x) _ (lamport_timestamp-IsQuiet n x)
                      (λ t. read-IsQuiet _))))))

  older_or_end-IsQuiet :
      (r : Result String) (n : ℕ) (rest : Exec Hashgraph (List FrameEvent))
      → IsQuiet rest
      → IsQuiet (older_or_end r n rest)
  older_or_end-IsQuiet (err e) n rest t = read-IsQuiet _
  older_or_end-IsQuiet panic n rest t = read-IsQuiet _
  older_or_end-IsQuiet (ok x) n rest t =
      bind-IsQuiet (create_frame_event n x) _ (create_frame_event-IsQuiet n x)
        (λ e. bind-IsQuiet rest _ t (λ es. read-IsQuiet _))

  older_events-IsQuiet :
      (n depth : ℕ) (participant : String) (index : ℤ)
      → IsQuiet (older_events n depth participant index)
  older_events-IsQuiet n zero participant index = read-IsQuiet _
  older_events-IsQuiet n (suc depth) participant index = make-IsQuiet _ (λ h.
      elim (Bool-cases (leb_ℤ (pos 0) (index -ℤ pos 1))) [
        | inl e ↦ rw e (
            ledger_stays _
              (older_or_end-IsQuiet
                (event_at h.store.participant_events_cache participant (index -ℤ pos 1)) n
                (older_events n depth participant (index -ℤ pos 1))
                (older_events-IsQuiet n depth participant (index -ℤ pos 1)))
              h)
        | inr e ↦ rw e refl
      ])

  root_below-IsQuiet :
      (b : Bool) (n : ℕ) (participant head : String) → IsQuiet (root_below b n participant head)
  root_below-IsQuiet true n participant head = read-IsQuiet _
  root_below-IsQuiet false n participant head =
      bind-IsQuiet (create_frame_event n head) _ (create_frame_event-IsQuiet n head) (λ e.
        bind-IsQuiet (older_events n root_depth participant e.core.body.index) _
          (older_events-IsQuiet n root_depth participant e.core.body.index) (λ es. read-IsQuiet _))

  root_unless-IsQuiet :
      (o : Option Root) (n : ℕ) (participant head : String) (roots : GoMap String Root)
      → IsQuiet (root_unless o n participant head roots)
  unfolding create_root
  root_unless-IsQuiet (some r) n participant head roots = read-IsQuiet _
  root_unless-IsQuiet none n participant head roots =
      bind-IsQuiet (create_root n participant head) _
        (root_below-IsQuiet (same_text head "") n participant head) (λ r. read-IsQuiet _)

  create_frame_events-IsQuiet : (n : ℕ) (xs : List String) → IsQuiet (create_frame_events n xs)
  create_frame_events-IsQuiet n [] = read-IsQuiet _
  create_frame_events-IsQuiet n (x ∷ xs) =
      bind-IsQuiet (create_frame_event n x) _ (create_frame_event-IsQuiet n x) (λ e.
        bind-IsQuiet (create_frame_events n xs) _ (create_frame_events-IsQuiet n xs)
          (λ es. read-IsQuiet _))

  roots_of_events-IsQuiet :
      (n : ℕ) (es : List FrameEvent) (roots : GoMap String Root)
      → IsQuiet (roots_of_events n es roots)
  unfolding roots_of_events
  roots_of_events-IsQuiet n [] roots = read-IsQuiet _
  roots_of_events-IsQuiet n (e ∷ es) roots =
      bind-IsQuiet
        (root_unless (lookup roots (creator e.core)) n (creator e.core) e.core.body.self_parent
          roots)
        _
        (root_unless-IsQuiet (lookup roots (creator e.core)) n (creator e.core)
          e.core.body.self_parent roots)
        (λ more. roots_of_events-IsQuiet n es more)

  root_of_known-IsQuiet :
      (b : Bool) (n : ℕ) (p : String) (roots : GoMap String Root)
      → IsQuiet (root_of_known b n p roots)
  root_of_known-IsQuiet true n p roots = read-IsQuiet _
  root_of_known-IsQuiet false n p roots =
      bind-IsQuiet (gets (λ (h : Hashgraph). last_consensus_event_from h.store p)) _
        (read-IsQuiet _)
        (λ last. root_unless-IsQuiet (lookup roots p) n p (or_empty_text last) roots)

  roots_of_known-IsQuiet :
      (n : ℕ) (rr : ℤ) (known : GoMap String Peer) (roots : GoMap String Root)
      → IsQuiet (roots_of_known n rr known roots)
  unfolding roots_of_known
  roots_of_known-IsQuiet n rr [] roots = read-IsQuiet _
  roots_of_known-IsQuiet n rr ((p, peer) ∷ rest) roots =
      bind-IsQuiet (gets (λ (h : Hashgraph). first_round h.store.peer_set_cache (peer_id peer))) _
        (read-IsQuiet _)
        (λ first.
          bind-IsQuiet (root_of_known (joins_later first rr) n p roots) _
            (root_of_known-IsQuiet (joins_later first rr) n p roots)
            (λ more. roots_of_known-IsQuiet n rr rest more))

  timestamps_of-IsQuiet : (xs : List String) → IsQuiet (timestamps_of xs)
  timestamps_of-IsQuiet [] = read-IsQuiet _
  timestamps_of-IsQuiet (x ∷ xs) =
      bind-IsQuiet (on_store (get_event x)) _ (on_store-IsQuiet (get_event x))
        (λ e. bind-IsQuiet (timestamps_of xs) _ (timestamps_of-IsQuiet xs) (λ ts. read-IsQuiet _))

  keep_frame-IsQuiet : (f : Frame) → IsQuiet (keep_frame f)
  keep_frame-IsQuiet f =
      bind-IsQuiet (on_store (set_frame f)) _ (on_store-IsQuiet (set_frame f)) (λ _. read-IsQuiet _)

  build_frame-IsQuiet : (n : ℕ) (rr : ℤ) → IsQuiet (build_frame n rr)
  unfolding build_frame
  build_frame-IsQuiet n rr =
      bind-IsQuiet (on_store (get_round rr)) _ (on_store-IsQuiet (get_round rr)) (λ info.
        bind-IsQuiet (peer_set_at rr) _ (peer_set_at-IsQuiet rr) (λ ps.
          bind-IsQuiet (create_frame_events n info.received_events) _
            (create_frame_events-IsQuiet n info.received_events)
            (λ received.
              bind-IsQuiet (roots_of_events n (sort_frame_events received) []) _
                (roots_of_events-IsQuiet n (sort_frame_events received) [])
                (λ first_roots.
                  bind-IsQuiet
                    (gets (λ (h : Hashgraph). h.store.peer_set_cache.repertoire_by_pub_key)) _
                    (read-IsQuiet _)
                    (λ repertoire.
                      bind-IsQuiet (roots_of_known n rr repertoire first_roots) _
                        (roots_of_known-IsQuiet n rr repertoire first_roots)
                        (λ roots.
                          bind-IsQuiet (gets (λ (h : Hashgraph). get_all h.store.peer_set_cache)) _
                            (read-IsQuiet _)
                            (λ peer_sets.
                              bind-IsQuiet (timestamps_of (famous_witnesses info)) _
                                (timestamps_of-IsQuiet (famous_witnesses info))
                                (λ timestamps.
                                  keep_frame-IsQuiet
                                    (frame_of rr ps received roots peer_sets timestamps)))))))))

  stored_or_built-IsQuiet : (r : Result Frame) (n : ℕ) (rr : ℤ) → IsQuiet (stored_or_built r n rr)
  stored_or_built-IsQuiet (ok f) n rr = read-IsQuiet _
  stored_or_built-IsQuiet panic n rr = read-IsQuiet _
  stored_or_built-IsQuiet (err e) n rr = elim (Bool-cases (is_store e key_not_found)) [
    | inl there ↦ rw there (build_frame-IsQuiet n rr)
    | inr there ↦ rw there (read-IsQuiet _)
  ]

  pub get_frame-IsQuiet : (n : ℕ) (rr : ℤ) → IsQuiet (get_frame n rr)
  unfolding get_frame
  get_frame-IsQuiet n rr =
      bind-IsQuiet (attempt (on_store (InmemStore.get_frame rr))) _
        (attempt-IsQuiet (on_store (InmemStore.get_frame rr))
          (on_store-IsQuiet (InmemStore.get_frame rr)))
        (λ stored. stored_or_built-IsQuiet stored n rr)

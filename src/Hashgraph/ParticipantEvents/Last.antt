-- ===== src/Hashgraph/ParticipantEvents/Last.antt =====
-- Which event of a participant is the last one after another is set.
use babble.Base.{
  ℕ, zero, suc, ◌<◌, ◌≡◌, refl, ℤ, String, List, [], ◌∷◌, ◌++◌, length, set, last?, some, lookup,
  lookup-insert, nat_key, if_pos, arith, string_key,
}
use babble.Common.Errors.{ok, or_err, new_store_err, empty, id}
use babble.Common.Platform.{Platform}
use babble.Common.RollingIndex.{RollingIndex, set_item}
use babble.Common.RollingIndexMap.{RollingIndexMap, get_last, set_item_of}
use babble.Hashgraph.ParticipantEvents.{
  ParticipantEventsCache, participant_id, last_event, set_event_of,
}

pub last?-append : {A : Type 0} (xs : List A) (x : A) → last? (xs ++ x ∷ []) ≡ some x
last?-append [] x = refl
last?-append (y ∷ []) x = refl
last?-append (y ∷ z ∷ zs) x = last?-append (z ∷ zs) x

pub last?-set :
    {A : Type 0} (xs : List A) (n : ℕ) (x : A) → suc n < length xs → last? (set xs n x) ≡ last? xs
last?-set [] n x h = refl
last?-set (y ∷ []) zero x h = ground arith
last?-set (y ∷ []) (suc n) x h = refl
last?-set (y ∷ z ∷ zs) zero x h = refl
last?-set (y ∷ z ∷ []) (suc zero) x h = ground arith
last?-set (y ∷ z ∷ w ∷ ws) (suc zero) x h = refl
last?-set (y ∷ z ∷ zs) (suc (suc n)) x h = last?-set (z ∷ zs) (suc n) x (omega arith)

module _ ⦃platform : Platform⦄ where
  participant_id_rim :
      (pec : ParticipantEventsCache) (rim : RollingIndexMap String) (participant : String)
      → participant_id (record pec { rim = rim }) participant ≡ participant_id pec participant
  unfolding participant_id
  participant_id_rim pec rim participant = refl

  -- After an item is set, the participant's last event is the last item of its rolling index.
  pub last_event-set_event_of :
      (pec : ParticipantEventsCache) (participant hash : String) (i : ℤ) (key : ℕ)
      (r s : RollingIndex String)
      → participant_id pec participant ≡ ok key
      → lookup pec.rim.mapping key ≡ some r
      → set_item r hash i ≡ ok s
      → ((set_event_of pec participant hash i).0 ≡ ok tt)
        × (last_event (set_event_of pec participant hash i).1 participant
            ≡ or_err (last? s.items) (new_store_err pec.rim.name empty (id key)))
  unfolding set_event_of last_event set_item_of get_last
  last_event-set_event_of pec participant hash i key r s p l e = rw p (
      rw l (
        rw e (
          refl,
          rw
              (
                participant_id_rim pec _ participant,
                p,
                lookup-insert pec.rim.mapping key key s,
                if_pos _ refl,
              )
              refl,
        )))

  pub last_event_lem :
      (pec : ParticipantEventsCache) (participant : String) (key : ℕ) (r : RollingIndex String)
      → participant_id pec participant ≡ ok key
      → lookup pec.rim.mapping key ≡ some r
      → last_event pec participant
        ≡ or_err (last? r.items) (new_store_err pec.rim.name empty (id key))
  unfolding last_event get_last
  last_event_lem pec participant key r p l = rw p (rw l refl)

-- ===== src/Hashgraph/InmemStore/Invariant.antt =====
-- The store's invariant: every cached object is under its own key, and the counters of the last
-- round and of the last block are not below what is cached.
use babble.Base.{
  ℕ, ◌<◌, ◌≡◌, refl, String, Option-cases, ℤ, ◌≤ℤ◌, ltb_ℤ, inl, inr, if◌then◌else◌, arith, int_key,
  string_key,
}
use babble.Common.Platform.{Platform}
use babble.Common.Lru
use babble.Common.Lru.Holds.{Holds, get-Holds, add-Holds, new_lru-Holds, weaken-Holds}
use babble.Hashgraph.Event.{Event, creator}
use babble.Hashgraph.ParticipantEvents.{set_event_of}
use babble.Hashgraph.Frame.{Frame}
use babble.Hashgraph.Block.{Block}
use babble.Hashgraph.RoundInfo.{RoundInfo}
use babble.Hashgraph.Crypto.{Crypto, hex}
use babble.Hashgraph.InmemStore.{
  InmemStore, get_event, set_event, put_event, put_block, put_frame, set_round_info, get_block,
  get_frame, new_inmem_store,
}
use babble.Common.Errors.{Result, ok, err, panic}
use babble.Common.Exec.{continue, modify}

module _ ⦃platform : Platform⦄ ⦃crypto : Crypto⦄ where
  pub record IsStore (s : InmemStore) : Type 0 where
    pub sized : 0 < s.cache_size
    pub events : Holds (λ key (e : Event). hex e ≡ key) s.event_cache
    pub rounds : Holds (λ r (i : RoundInfo). r ≤ℤ s.last_round) s.round_cache
    pub blocks : Holds (λ i (b : Block). (b.body.index ≡ i) × (i ≤ℤ s.last_block)) s.block_cache
    pub frames : Holds (λ r (f : Frame). f.round ≡ r) s.frame_cache

  pub new_inmem_store-IsStore : (size : ℕ) → 0 < size → IsStore (new_inmem_store size)
  unfolding new_inmem_store
  new_inmem_store-IsStore size h = record {
    sized = h;
    events = new_lru-Holds _ size h;
    rounds = new_lru-Holds _ size h;
    blocks = new_lru-Holds _ size h;
    frames = new_lru-Holds _ size h;
  }

  pub get_block-IsStore : (i : ℤ) (s : InmemStore) → IsStore s → IsStore (get_block i s).1
  unfolding get_block
  get_block-IsStore i s h = record {
    sized = h.sized;
    events = h.events;
    rounds = h.rounds;
    blocks = get-Holds _ s.block_cache i h.blocks;
    frames = h.frames;
  }

  pub get_frame-IsStore : (r : ℤ) (s : InmemStore) → IsStore s → IsStore (get_frame r s).1
  unfolding get_frame
  get_frame-IsStore r s h = record {
    sized = h.sized;
    events = h.events;
    rounds = h.rounds;
    blocks = h.blocks;
    frames = get-Holds _ s.frame_cache r h.frames;
  }

  -- the greater of the counter and a new number
  raise : ℤ → ℤ → ℤ
  raise last i = if ltb_ℤ last i then i else last

  below_raise : (last i j : ℤ) → j ≤ℤ last → j ≤ℤ raise last i
  unfolding raise
  below_raise last i j h = ground arith

  raise_above : (last i : ℤ) → i ≤ℤ raise last i
  unfolding raise
  raise_above last i = ground arith

  put_event-IsStore : (e : Event) (s : InmemStore) → IsStore s → IsStore (put_event e s)
  put_event-IsStore e s h = record {
    sized = h.sized;
    events = add-Holds _ s.event_cache (hex e) e h.events refl;
    rounds = h.rounds;
    blocks = h.blocks;
    frames = h.frames;
  }

  put_noted-IsStore :
      (r : Result (Unit {0})) (e : Event) (s : InmemStore)
      → IsStore s
      → IsStore (continue r (λ _. modify (put_event e)) s).1
  put_noted-IsStore (ok _) e s h = put_event-IsStore e s h
  put_noted-IsStore (err _) e s h = h
  put_noted-IsStore panic e s h = h

  pub get_event-IsStore : (key : String) (s : InmemStore) → IsStore s → IsStore (get_event key s).1
  unfolding get_event
  get_event-IsStore key s h = record {
    sized = h.sized;
    events = get-Holds _ s.event_cache key h.events;
    rounds = h.rounds;
    blocks = h.blocks;
    frames = h.frames;
  }

  pub set_event-IsStore : (e : Event) (s : InmemStore) → IsStore s → IsStore (set_event e s).1
  unfolding set_event get_event
  set_event-IsStore e s h =
      let read = get_event-IsStore (hex e) s h in
      let noted = set_event_of s.participant_events_cache (creator e) (hex e) e.body.index in
      elim (Option-cases (Lru.get s.event_cache (hex e)).1) [
        | inl none_there ↦ rw none_there (
            put_noted-IsStore noted.0 e
              (record (get_event (hex e) s).1 { participant_events_cache = noted.1 })
              (record {
                sized = read.sized;
                events = read.events;
                rounds = read.rounds;
                blocks = read.blocks;
                frames = read.frames;
              }))
        | inr (v, there) ↦ rw there (put_event-IsStore e _ read)
      ]

  pub set_round_info-IsStore :
      (r : ℤ) (i : RoundInfo) (s : InmemStore) → IsStore s → IsStore (set_round_info r i s).1
  unfolding set_round_info raise
  set_round_info-IsStore r i s h = record {
    sized = h.sized;
    events = h.events;
    rounds =
        add-Holds _ s.round_cache r i
          (weaken-Holds _ _ s.round_cache (λ q v. below_raise s.last_round r q) h.rounds)
          (raise_above s.last_round r);
    blocks = h.blocks;
    frames = h.frames;
  }

  pub put_block-IsStore : (b : Block) (s : InmemStore) → IsStore s → IsStore (put_block b s)
  unfolding raise
  put_block-IsStore b s h = record {
    sized = h.sized;
    events = h.events;
    rounds = h.rounds;
    blocks =
        add-Holds _ s.block_cache b.body.index b
          (weaken-Holds _ _ s.block_cache
            (λ q v both. (both.0, below_raise s.last_block b.body.index q both.1)) h.blocks)
          (refl, raise_above s.last_block b.body.index);
    frames = h.frames;
  }

  pub put_frame-IsStore : (f : Frame) (s : InmemStore) → IsStore s → IsStore (put_frame f s)
  put_frame-IsStore f s h = record {
    sized = h.sized;
    events = h.events;
    rounds = h.rounds;
    blocks = h.blocks;
    frames = add-Holds _ s.frame_cache f.round f h.frames refl;
  }

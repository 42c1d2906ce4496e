-- ===== src/Hashgraph/InmemStore/Reads.antt =====
-- What the store's methods read after its writes.
use babble.Base.{◌≡◌, refl, ℤ, int_key, string_key}
use babble.Common.Errors.{ok}
use babble.Common.Platform.{Platform}
use babble.Common.Lru.Contents.{get-add}
use babble.Hashgraph.Event.{Event}
use babble.Hashgraph.Frame.{Frame}
use babble.Hashgraph.Block.{Block}
use babble.Hashgraph.RoundInfo.{RoundInfo}
use babble.Hashgraph.Crypto.{Crypto, hex}
use babble.Hashgraph.InmemStore.{
  InmemStore, get_event, put_event, get_round, set_round_info, get_block, set_block, get_frame,
  set_frame, put_block, put_frame,
}
use babble.Hashgraph.InmemStore.Contents.{set_block_lem, set_frame_lem}
use babble.Hashgraph.InmemStore.Invariant.{IsStore, get_block-IsStore, get_frame-IsStore}

module _ ⦃platform : Platform⦄ ⦃crypto : Crypto⦄ where
  read_block :
      (b : Block) (t : InmemStore) → IsStore t → (get_block b.body.index (put_block b t)).0 ≡ ok b
  unfolding get_block
  read_block b t h =
      rw (get-add t.block_cache b.body.index b h.blocks.cache.distinct h.blocks.room) refl

  read_frame :
      (f : Frame) (t : InmemStore) → IsStore t → (get_frame f.round (put_frame f t)).0 ≡ ok f
  unfolding get_frame
  read_frame f t h = rw (get-add t.frame_cache f.round f h.frames.cache.distinct h.frames.room) refl

  read_event :
      (e : Event) (t : InmemStore) → IsStore t → (get_event (hex e) (put_event e t)).0 ≡ ok e
  unfolding get_event
  read_event e t h = rw (get-add t.event_cache (hex e) e h.events.cache.distinct h.events.room) refl

  -- A block, a round or a frame that is stored is what the next read of its index returns, whatever
  -- the caches had to drop for it.
  pub get-set_stored :
      (s : InmemStore) (b : Block) (r : ℤ) (i : RoundInfo) (f : Frame)
      → IsStore s
      → ((get_block b.body.index (set_block b s).1).0 ≡ ok b)
        × ((get_round r (set_round_info r i s).1).0 ≡ ok i)
        × ((get_frame f.round (set_frame f s).1).0 ≡ ok f)
  unfolding get_round set_round_info
  get-set_stored s b r i f h = (
    rw (set_block_lem b s)
        (read_block b (get_block b.body.index s).1 (get_block-IsStore b.body.index s h)),
    rw (get-add s.round_cache r i h.rounds.cache.distinct h.rounds.room) refl,
    rw (set_frame_lem f s) (read_frame f (get_frame f.round s).1 (get_frame-IsStore f.round s h)),
  )

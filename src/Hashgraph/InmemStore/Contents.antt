-- ===== src/Hashgraph/InmemStore/Contents.antt =====
-- What the store's methods leave in its caches.
use babble.Base.{◌≡◌, refl, Option-cases, inl, inr, int_key, string_key}
use babble.Common.Errors.{ok}
use babble.Common.Lru
use babble.Common.Lru.{Lru}
use babble.Hashgraph.Frame.{Frame}
use babble.Hashgraph.Block.{Block}
use babble.Hashgraph.InmemStore.{
  InmemStore, get_block, set_block, get_frame, set_frame, put_block, put_frame,
}

pub set_block_lem :
    (b : Block) (s : InmemStore) → set_block b s ≡ (ok tt, put_block b (get_block b.body.index s).1)
unfolding set_block get_block
set_block_lem b s = elim (Option-cases (Lru.get s.block_cache b.body.index).1) [
  | inl e ↦ rw e refl
  | inr (v, e) ↦ rw e refl
]

pub set_frame_lem :
    (f : Frame) (s : InmemStore) → set_frame f s ≡ (ok tt, put_frame f (get_frame f.round s).1)
unfolding set_frame get_frame
set_frame_lem f s = elim (Option-cases (Lru.get s.frame_cache f.round).1) [
  | inl e ↦ rw e refl
  | inr (v, e) ↦ rw e refl
]

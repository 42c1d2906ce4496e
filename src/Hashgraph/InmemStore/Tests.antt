-- ===== src/Hashgraph/InmemStore/Tests.antt =====
-- Runs of the store.
use babble.Base.{◌≡◌, pos, [], arith, false}
use babble.Common.Errors.{ok}
use babble.Common.Platform.Sample.{sample_platform}
use babble.Hashgraph.Sample.{sample_crypto, block_3, event_1}
use babble.Hashgraph.RoundInfo.{RoundInfo}
use babble.Hashgraph.Frame.{Frame}
use babble.Hashgraph.InmemStore.{
  new_inmem_store, get_block, set_block, get_round, set_round_info, get_frame, set_frame,
}
use babble.Hashgraph.InmemStore.Invariant.{IsStore, new_inmem_store-IsStore}
use babble.Hashgraph.InmemStore.Calls.{sets_event, after, after-IsStore}
use babble.Hashgraph.InmemStore.Reads.{get-set_stored}

abbrev no_events : RoundInfo
no_events = record { created_events = []; received_events = []; queued = false; decided = false }

abbrev frame_2 : Frame
frame_2 = record {
  round = pos 2;
  peers = [];
  roots = [];
  events = [];
  peer_sets = [];
  timestamp = pos 0;
}

after-IsStore_example : IsStore (after (new_inmem_store 1) (sets_event event_1))
after-IsStore_example =
    after-IsStore (new_inmem_store 1) (sets_event event_1) (new_inmem_store-IsStore 1 (omega arith))

get-set_stored_example :
    ((get_block (pos 3) (set_block (block_3 [] []) (new_inmem_store 1)).1).0 ≡ ok (block_3 [] []))
    × ((get_round (pos 2) (set_round_info (pos 2) no_events (new_inmem_store 1)).1).0
        ≡ ok no_events)
    × ((get_frame (pos 2) (set_frame frame_2 (new_inmem_store 1)).1).0 ≡ ok frame_2)
get-set_stored_example =
    get-set_stored (new_inmem_store 1) (block_3 [] []) (pos 2) no_events frame_2
      (new_inmem_store-IsStore 1 (omega arith))

-- ===== src/Hashgraph/Ancestry/Tests.antt =====
-- Runs of the ancestry of events.
use babble.Base.{
  count, ◌≡◌, refl, ◌<◌, ◌*◌, String, Bool, true, [], keys, ◌&&◌, arith, lookup, delete,
  String-discrete, Bool-cases,
}
use babble.Common.Platform.Sample.{sample_platform}
use babble.Common.Lru.{get}
use babble.Common.Lru.Holds.{new_lru-Holds}
use babble.Peers.PeerSet.{len, super_majority}
use babble.Hashgraph.Event.{creator}
use babble.Hashgraph.InmemStore.{get_event, new_inmem_store}
use babble.Hashgraph.State.{Hashgraph, pair_key, new_hashgraph}
use babble.Hashgraph.Ancestry.{strongly_sees, compute_ancestor, ancestor}
use babble.Hashgraph.Ancestry.Quorum.{through, strongly_sees_meet}
use babble.Hashgraph.Ancestry.Memo.{IsMemo, Agrees, ancestor-IsMemo}
use babble.Hashgraph.Sample.{only_alice, event_1, event_2, with_events}

sees : strongly_sees event_2 event_1 only_alice ≡ true
unfolding strongly_sees super_majority len lookup String-discrete Bool-cases
sees = refl

strongly_sees_meet_example :
    len only_alice
    < 3
      * count
          (λ p. through event_2 event_1 p && through event_2 event_1 p)
          (keys only_alice.by_pub_key)
strongly_sees_meet_example = strongly_sees_meet event_2 event_1 event_2 event_1 only_alice sees sees

abbrev always : String → String → Bool
always _ _ = true

abbrev with_two : Hashgraph
with_two = new_hashgraph (with_events [] 0)

nothing_cached : IsMemo always with_two
unfolding new_hashgraph new_inmem_store
nothing_cached = new_lru-Holds _ 10 (omega arith)

computed : Agrees (compute_ancestor "0X02" "0X01" with_two.store).0 true
unfolding new_hashgraph compute_ancestor get_event get creator lookup delete String-discrete
    Bool-cases
computed = refl

ancestor-IsMemo_example :
    IsMemo always (ancestor "0X02" "0X01" with_two).1
    × Agrees (ancestor "0X02" "0X01" with_two).0 true
ancestor-IsMemo_example = ancestor-IsMemo always "0X02" "0X01" with_two nothing_cached computed

-- ===== src/Hashgraph/Rounds/Tests.antt =====
-- Runs of the rounds, witnesses and timestamps.
use babble.Base.{
  inl, inr, ◌≡◌, refl, ℕ, pos, true, [], ◌∷◌, lookup, arith, ℤ_discrete, ℕ_discrete, String,
  String-discrete, Bool-cases, string_key, ite, lookup-All, int_key, delete, ◌+ℤ◌,
}
use babble.Common.Errors.{ok}
use babble.Common.Exec.Total.{NoPanic}
use babble.Common.Platform.Sample.{sample_platform}
use babble.Common.Lru
use babble.Hashgraph.Event.{creator}
use babble.Hashgraph.State.{Hashgraph, new_hashgraph, pair_key, triple_key}
use babble.Hashgraph.InmemStore.{get_event}
use babble.Hashgraph.PeerSetCache.{get_peer_set}
use babble.Hashgraph.Rounds.{
  round, compute_round, witness, compute_witness, lamport_timestamp, compute_timestamp,
}
use babble.Hashgraph.Rounds.Total.{IsRanked, HasLower, rounds_return}
use babble.Hashgraph.Sample.{sample_crypto, with_events}

abbrev two_events : Hashgraph
two_events = new_hashgraph (with_events ("0X01" ∷ "0X02" ∷ []) 1)

abbrev rank : String → ℕ
rank x = ite (String-discrete x "0X02") 1 0

two_events-IsRanked : IsRanked rank two_events.store
unfolding Lru.peek lookup new_hashgraph ℤ_discrete ℕ_discrete String-discrete Bool-cases
two_events-IsRanked = record {
  parents = λ x e there.
      lookup-All (HasLower rank) two_events.store.event_cache.evict_list x e
        ((inl refl, inl refl), ((inr (omega arith), inl refl), tt)) there;
  peer_sets = record { sorted = (tt, tt); present = (refl, tt) };
}

first_witness : (witness 1 "0X01" two_events).0 ≡ ok true
unfolding witness compute_witness round compute_round new_hashgraph get_event Lru.get Lru.new_lru
    Lru.add lookup creator get_peer_set ℤ_discrete ℕ_discrete String-discrete Bool-cases
first_witness = refl

second_timestamp : (lamport_timestamp 2 "0X02" two_events).0 ≡ ok (pos 1)
unfolding lamport_timestamp compute_timestamp new_hashgraph get_event Lru.get Lru.new_lru Lru.add
    lookup delete ◌+ℤ◌ ℤ_discrete ℕ_discrete String-discrete Bool-cases
second_timestamp = refl

rounds_return_example :
    NoPanic (round 2 "0X02" two_events).0
    × NoPanic (witness 2 "0X02" two_events).0
    × NoPanic (lamport_timestamp 2 "0X02" two_events).0
unfolding String-discrete Bool-cases
rounds_return_example = rounds_return rank 2 "0X02" two_events two_events-IsRanked (omega arith)

-- ===== src/Hashgraph/State.antt =====
-- src/hashgraph/hashgraph.go: the state of a Hashgraph. The commit callback and the logger are not
-- part of it.
pub mod Quiet
pub mod Owner
use babble.Base.{ℤ, pos, String, List, [], Option, none, some, Bool, Key, String-discrete}
use babble.Common.Exec.{Exec}
use babble.Common.Lru.{Lru, new_lru}
use babble.Hashgraph.PendingRounds.{PendingRoundsCache, new_pending_rounds_cache}
use babble.Hashgraph.SigPool.{SigPool}
use babble.Hashgraph.InmemStore.{InmemStore}

-- caches.go, key and treKey
pub record PairKey : Type 0 where
  pub x : String
  pub y : String

pub record TripleKey : Type 0 where
  pub x : String
  pub y : String
  pub z : String

unfoldable pub PairKey-discrete : Discrete PairKey
PairKey-discrete = hlevel String-discrete

unfoldable pub TripleKey-discrete : Discrete TripleKey
TripleKey-discrete = hlevel String-discrete

instance abbrev pub pair_key : Key PairKey
pair_key = record { dec = PairKey-discrete }

instance abbrev pub triple_key : Key TripleKey
triple_key = record { dec = TripleKey-discrete }

pub record Hashgraph : Type 0 where
  pub store : InmemStore
  pub undetermined_events : List String
  pub pending_rounds : PendingRoundsCache
  pub pending_signatures : SigPool
  pub last_consensus_round : Option ℤ
  pub first_consensus_round : Option ℤ
  pub anchor_block : Option ℤ
  pub round_lower_bound : Option ℤ
  pub last_commited_round_events : ℤ
  pub consensus_transactions : ℤ
  pub pending_loaded_events : ℤ
  pub topological_index : ℤ
  pub ancestor_cache : Lru PairKey Bool
  pub self_ancestor_cache : Lru PairKey Bool
  pub strongly_see_cache : Lru TripleKey Bool
  pub round_cache : Lru String ℤ
  pub timestamp_cache : Lru String ℤ
  pub witness_cache : Lru String Bool

-- NewHashgraph
unfoldable pub new_hashgraph : InmemStore → Hashgraph
new_hashgraph store = record {
  store = store;
  undetermined_events = [];
  pending_rounds = new_pending_rounds_cache;
  pending_signatures = [];
  last_consensus_round = none;
  first_consensus_round = none;
  anchor_block = none;
  round_lower_bound = none;
  last_commited_round_events = pos 0;
  consensus_transactions = pos 0;
  pending_loaded_events = pos 0;
  topological_index = pos 0;
  ancestor_cache = new_lru store.cache_size;
  self_ancestor_cache = new_lru store.cache_size;
  strongly_see_cache = new_lru store.cache_size;
  round_cache = new_lru store.cache_size;
  timestamp_cache = new_lru store.cache_size;
  witness_cache = new_lru store.cache_size;
}

-- a method of the store, called from the hashgraph
abbrev pub on_store : {A : Type 0} → Exec InmemStore A → Exec Hashgraph A
on_store m h = let (r, s) = m h.store in (r, record h { store = s })

first_if_unset : Option ℤ → ℤ → Option ℤ
first_if_unset none i = some i
first_if_unset (some r) i = some r

unfoldable pub set_last_consensus_round : ℤ → Hashgraph → Hashgraph
unfolding first_if_unset
set_last_consensus_round i h = record h {
  last_consensus_round = some i;
  first_consensus_round = first_if_unset h.first_consensus_round i;
}

unfoldable pub set_round_lower_bound : ℤ → Hashgraph → Hashgraph
set_round_lower_bound i h = record h { round_lower_bound = some i }

-- ===== src/Hashgraph/PeerSetCache/Tests.antt =====
-- Runs of the cache of peer-sets.
use babble.Base.{
  ◌≡◌, refl, ℤ, pos, [], ◌∷◌, ◌⊎◌, ◌≤ℤ◌, ◌<ℤ◌, lookup, insert, some, arith, ℤ_discrete, ℕ_discrete,
  int_key,
}
use babble.Common.Errors.{ok}
use babble.Common.Platform.Sample.{sample_platform}
use babble.Peers.PeerSet.{PeerSet}
use babble.Hashgraph.PeerSetCache.{PeerSetCache, set_peer_set, get_peer_set}
use babble.Hashgraph.PeerSetCache.Lookup.{IsIndexed, NoneBetween, get_peer_set_in_force}
use babble.Hashgraph.PeerSetCache.Updates.{set_peer_set-IsIndexed, get_peer_set-set_later}

abbrev nobody : PeerSet
nobody = record { peers = []; by_pub_key = []; by_id = [] }

-- peer-sets from rounds 0 and 6 on
abbrev from_6 : PeerSetCache
from_6 = record {
  rounds = pos 0 ∷ pos 6 ∷ [];
  peer_sets = (pos 0, nobody) ∷ (pos 6, nobody) ∷ [];
  repertoire_by_pub_key = [];
  repertoire_by_id = [];
  first_rounds = [];
}

abbrev from_12 : PeerSetCache
from_12 = record from_6 {
  rounds = pos 0 ∷ pos 6 ∷ pos 12 ∷ [];
  peer_sets = (pos 0, nobody) ∷ (pos 6, nobody) ∷ (pos 12, nobody) ∷ [];
}

from_6-IsIndexed : IsIndexed from_6
unfolding lookup ℤ_discrete ℕ_discrete
from_6-IsIndexed = record { sorted = ((omega arith, tt), (tt, tt)); present = (refl, (refl, tt)) }

set_12 : set_peer_set from_6 (pos 12) nobody ≡ ok from_12
unfolding set_peer_set lookup insert ℤ_discrete ℕ_discrete
set_12 = refl

get_peer_set_in_force_example :
    (best : ℤ) × (ps : PeerSet) × (get_peer_set from_6 (pos 8) ≡ ok ps)
    × (lookup from_6.peer_sets best ≡ some ps)
    × (((best ≤ℤ pos 8) × NoneBetween best (pos 8) (pos 0 ∷ pos 6 ∷ []))
        ⊎ ((best ≡ pos 0) × (pos 8 <ℤ pos 0)))
get_peer_set_in_force_example =
    get_peer_set_in_force from_6 (pos 8) (pos 0) (pos 6 ∷ []) from_6-IsIndexed refl

set_peer_set-IsIndexed_example : IsIndexed from_12
set_peer_set-IsIndexed_example =
    set_peer_set-IsIndexed from_6 (pos 12) nobody from_6-IsIndexed set_12

get_peer_set-set_later_example : get_peer_set from_12 (pos 8) ≡ get_peer_set from_6 (pos 8)
get_peer_set-set_later_example =
    get_peer_set-set_later from_6 (pos 12) (pos 8) (pos 0) (pos 6 ∷ []) nobody from_6-IsIndexed refl
      (omega arith) (omega arith) set_12

-- ===== src/Common/Lru/Tests.antt =====
-- Runs of the cache.
use babble.Base.{◌≡◌, refl, ℕ, [], ◌∷◌, lookup, none, arith, nat_key, ℕ_discrete}
use babble.Common.Lru.{Lru, add, peek}
use babble.Common.Lru.Contents.{peek-add}
use babble.Common.Lru.Bounds.{IsCache, adds, after, after-IsCache}

-- two entries in two places, the oldest of key 1
abbrev two_entries : Lru ℕ ℕ
two_entries = record { size = 2; evict_list = (2, 20) ∷ (1, 10) ∷ [] }

two_entries-IsCache : IsCache two_entries
unfolding lookup ℕ_discrete
two_entries-IsCache = record { distinct = (refl, (refl, tt)); fits = omega arith }

peek-add_example : peek (add two_entries 3 30).0 1 ≡ none
unfolding ℕ_discrete peek lookup
peek-add_example = peek-add two_entries 3 1 30 two_entries-IsCache.distinct (omega arith)

after-IsCache_example : IsCache (after two_entries (adds 3 30))
after-IsCache_example = after-IsCache two_entries (adds 3 30) two_entries-IsCache

-- ===== src/Common/Lru.antt =====
-- src/common/lru.go: a cache of a fixed size that evicts the least recently used entry. The map
-- `items` leads from a key to its element of `evictList`, and every operation changes the two
-- together: here a key is searched for in the list. `onEvict` is nil wherever the program makes a
-- cache. The front of the list is the most recent entry.
pub mod Contents
pub mod Bounds
pub mod Holds
pub mod Tests
use babble.Base.{
  ℕ, suc, List, [], ◌∷◌, map, GoMap, Key, lookup, delete, length, keys, Option, none, some, is_some,
  ltb, if◌then◌else◌, Bool, true, false, last?, ite,
}
use mathlib.Core.List.{reverse}

pub record Lru (K V : Type 0) : Type 0 where
  pub size : ℕ
  pub evict_list : GoMap K V

-- a list without its last element
abbrev pub but_last : {A : Type 0} → List A → List A
but_last [] = []
but_last (x ∷ []) = []
but_last (x ∷ y ∷ ys) = x ∷ but_last (y ∷ ys)

module _ {K V : Type 0} where
  unfoldable pub new_lru : ℕ → Lru K V
  new_lru size = record { size = size; evict_list = [] }

  unfoldable pub purge : Lru K V → Lru K V
  purge c = record c { evict_list = [] }

  -- RemoveOldest; `removeOldest` is the same without the result
  unfoldable pub remove_oldest : Lru K V → Lru K V × Option (K × V)
  remove_oldest c = (record c { evict_list = but_last c.evict_list }, last? c.evict_list)

  unfoldable pub get_oldest : Lru K V → Option (K × V)
  get_oldest c = last? c.evict_list

  -- from the oldest to the newest
  unfoldable pub keys_of : Lru K V → List K
  keys_of c = reverse (keys c.evict_list)

  unfoldable pub len : Lru K V → ℕ
  len c = length c.evict_list

  -- the end of `Add`: the entry is at the front, and the oldest goes if there are too many
  abbrev pub push : Lru K V → K × V → Lru K V × Bool
  push c e =
      if ltb c.size (suc (length c.evict_list))
      then (record c { evict_list = but_last (e ∷ c.evict_list) }, true)
      else (record c { evict_list = e ∷ c.evict_list }, false)

module _ {K V : Type 0} ⦃k : Key K⦄ where
  unfoldable pub add : Lru K V → K → V → Lru K V × Bool
  add c key value =
      if is_some (lookup c.evict_list key)
      then (record c { evict_list = (key, value) ∷ delete c.evict_list key }, false)
      else push c (key, value)

  abbrev pub replaced : K → V → K × V → K × V
  replaced key value e = ite (k.dec e.0 key) (e.0, value) e

  -- an entry that is found moves to the front
  touch : Lru K V → K → Option V → Lru K V × Option V
  touch c key none = (c, none)
  touch c key (some v) = (record c { evict_list = (key, v) ∷ delete c.evict_list key }, some v)

  unfoldable pub get : Lru K V → K → Lru K V × Option V
  unfolding touch
  get c key = touch c key (lookup c.evict_list key)

  -- a write through a pointer to a cached value, which changes no order
  unfoldable pub overwrite : Lru K V → K → V → Lru K V
  overwrite c key value = record c { evict_list = map (replaced key value) c.evict_list }

  unfoldable pub contains : Lru K V → K → Bool
  contains c key = is_some (lookup c.evict_list key)

  unfoldable pub peek : Lru K V → K → Option V
  peek c key = lookup c.evict_list key

  unfoldable pub remove : Lru K V → K → Lru K V × Bool
  remove c key =
      if is_some (lookup c.evict_list key)
      then (record c { evict_list = delete c.evict_list key }, true)
      else (c, false)

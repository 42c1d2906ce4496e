-- ===== src/Hashgraph/PendingRounds.antt =====
-- src/hashgraph/caches.go, PendingRoundsCache: the rounds that are on their way through consensus.
-- The map and the sorted slice hold pointers to the same rounds, one for each index, so a write
-- through the map (`Update`) is a write to the entry of that index in the slice.
pub mod Order
pub mod Flags
pub mod Replay
pub mod Tests
use babble.Base.{
  ℤ, List, [], ◌∷◌, ◌++◌, map, GoMap, insert, lookup, delete, Option, none, some, is_some, ltb_ℤ,
  eqb_ℤ, if◌then◌else◌, int_key, Bool, true, false,
}

pub record PendingRound : Type 0 where
  pub index : ℤ
  pub decided : Bool

pub record PendingRoundsCache : Type 0 where
  pub items : GoMap ℤ PendingRound
  pub sorted_items : List PendingRound

unfoldable pub new_pending_rounds_cache : PendingRoundsCache
new_pending_rounds_cache = record { items = []; sorted_items = [] }

-- `sort.Sort` by `Less`, on rounds with different indexes
abbrev pub insert_round : PendingRound → List PendingRound → List PendingRound
insert_round p [] = p ∷ []
insert_round p (q ∷ qs) = if ltb_ℤ p.index q.index then p ∷ q ∷ qs else q ∷ insert_round p qs

abbrev pub sort_into : List PendingRound → List PendingRound → List PendingRound
sort_into acc [] = acc
sort_into acc (p ∷ ps) = sort_into (insert_round p acc) ps

abbrev pub sort_rounds : List PendingRound → List PendingRound
sort_rounds = sort_into []

abbrev pub values : GoMap ℤ PendingRound → List PendingRound
values = map (λ e. e.1)

unfoldable pub queued : PendingRoundsCache → ℤ → Bool
queued c round = is_some (lookup c.items round)

unfoldable pub set_pending : PendingRoundsCache → PendingRound → PendingRoundsCache
set_pending c p = record {
  items = insert c.items p.index p;
  sorted_items = sort_rounds (c.sorted_items ++ p ∷ []);
}

-- GetOrderedPendingRounds
unfoldable pub ordered_pending_rounds : PendingRoundsCache → List PendingRound
ordered_pending_rounds c = c.sorted_items

abbrev pub mark : ℤ → PendingRound → PendingRound
mark d p = if eqb_ℤ p.index d then record p { decided = true } else p

-- one turn of the loop of `Update`
abbrev pub mark_found : Option PendingRound → PendingRoundsCache → ℤ → PendingRoundsCache
mark_found none c d = c
mark_found (some dr) c d = record {
  items = insert c.items d (record dr { decided = true });
  sorted_items = map (mark d) c.sorted_items;
}

unfoldable pub update : PendingRoundsCache → List ℤ → PendingRoundsCache
update c [] = c
update c (d ∷ ds) = update (mark_found (lookup c.items d) c d) ds

abbrev pub delete_all : GoMap ℤ PendingRound → List ℤ → GoMap ℤ PendingRound
delete_all m [] = m
delete_all m (pr ∷ prs) = delete_all (delete m pr) prs

unfoldable pub clean : PendingRoundsCache → List ℤ → PendingRoundsCache
clean c processed =
    let items = delete_all c.items processed in
    record { items = items; sorted_items = sort_rounds (values items) }

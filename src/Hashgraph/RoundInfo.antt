-- ===== src/Hashgraph/RoundInfo.antt =====
-- src/hashgraph/roundInfo.go and src/common/trilean.go: the events of a round, which of them are
-- witnesses, and which witnesses are famous.
pub mod Decided
pub mod Fame
pub mod Tests
use babble.Base.{
  ℕ, ◌+◌, String, List, [], ◌∷◌, ◌++◌, GoMap, insert, lookup, Option, none, some, leb, not, ◌&&◌,
  ◌||◌, if◌then◌else◌, string_key, Bool, true, false,
}
use babble.Peers.PeerSet.{PeerSet, super_majority}

-- common.Trilean
pub data Trilean : Type 0 where
  undefined yea nay : Trilean

unfoldable pub show_trilean : Trilean → String
show_trilean undefined = "Undefined"
show_trilean yea = "True"
show_trilean nay = "False"

abbrev pub is_defined : Trilean → Bool
is_defined undefined = false
is_defined _ = true

abbrev pub is_yea : Trilean → Bool
is_yea yea = true
is_yea _ = false

pub record RoundEvent : Type 0 where
  pub witness : Bool
  pub famous : Trilean

pub record RoundInfo : Type 0 where
  pub created_events : GoMap String RoundEvent
  pub received_events : List String
  pub queued : Bool
  pub decided : Bool

unfoldable pub new_round_info : RoundInfo
new_round_info = record {
  created_events = [];
  received_events = [];
  queued = false;
  decided = false;
}

add_if_new : Option RoundEvent → RoundInfo → String → Bool → RoundInfo
add_if_new (some e) r x witness = r
add_if_new none r x witness = record r {
  created_events = insert r.created_events x (record { witness = witness; famous = undefined });
}

unfoldable pub add_created_event : RoundInfo → String → Bool → RoundInfo
unfolding add_if_new
add_created_event r x witness = add_if_new (lookup r.created_events x) r x witness

unfoldable pub add_received_event : RoundInfo → String → RoundInfo
add_received_event r x = record r { received_events = r.received_events ++ x ∷ [] }

-- the entry that `SetFame` changes: a new one is a witness
abbrev pub or_witness : Option RoundEvent → RoundEvent
or_witness (some e) = e
or_witness none = record { witness = true; famous = undefined }

unfoldable pub set_fame : RoundInfo → String → Bool → RoundInfo
set_fame r x f =
    let e = or_witness (lookup r.created_events x) in
    record r {
      created_events = insert r.created_events x (record e { famous = if f then yea else nay });
    }

-- the loop of `WitnessesDecided`: the witnesses with a fame, or `none` at one without
unfoldable pub count_decided : GoMap String RoundEvent → ℕ → Option ℕ
count_decided [] c = some c
count_decided ((x, e) ∷ m) c =
    let next = count_decided m (c + 1) in
    let same = count_decided m c in
    if e.witness && is_defined e.famous
    then next
    else if e.witness && not (is_defined e.famous)
    then none
    else same

decide : RoundInfo → PeerSet → Option ℕ → RoundInfo × Bool
decide r peer_set none = (r, false)
decide r peer_set (some c) =
    let d = leb (super_majority peer_set) c in (record r { decided = d }, d)

-- The round that it leaves, and its result.
unfoldable pub witnesses_decided : RoundInfo → PeerSet → RoundInfo × Bool
unfolding decide
witnesses_decided r peer_set =
    if r.decided then (r, true) else decide r peer_set (count_decided r.created_events 0)

witnesses_of : GoMap String RoundEvent → List String
witnesses_of [] = []
witnesses_of ((x, e) ∷ m) = if e.witness then x ∷ witnesses_of m else witnesses_of m

unfoldable pub witnesses : RoundInfo → List String
unfolding witnesses_of
witnesses r = witnesses_of r.created_events

famous_of : GoMap String RoundEvent → List String
famous_of [] = []
famous_of ((x, e) ∷ m) = if e.witness && is_yea e.famous then x ∷ famous_of m else famous_of m

unfoldable pub famous_witnesses : RoundInfo → List String
unfolding famous_of
famous_witnesses r = famous_of r.created_events

decided_event : Option RoundEvent → Bool
decided_event none = false
decided_event (some e) = e.witness && is_defined e.famous

unfoldable pub is_decided : RoundInfo → String → Bool
unfolding decided_event
is_decided r witness = decided_event (lookup r.created_events witness)

unfoldable pub is_queued : RoundInfo → Bool
is_queued r = r.queued

-- ===== src/Hashgraph/Rounds.antt =====
-- src/hashgraph/hashgraph.go: the round of an event, whether it is a witness, and its Lamport
-- timestamp. They are computed from the parents', so the depth of the calls is limited by fuel, and
-- running out of it is a panic, as a stack that overflows is in Go. The answers without an error are
-- cached.
pub mod Quiet
pub mod Total
pub mod Tests
use babble.Base.{
  ℕ, zero, suc, ℤ, pos, negsuc, minus_one, ◌+ℤ◌, ◌-ℤ◌, String, List, [], ◌∷◌, length, lookup,
  Option, some, none, is_some, ltb_ℤ, eqb_ℤ, leb, if◌then◌else◌, Bool, true, false, string_key,
}
use babble.Common.Errors.{Result, ok, err, panic, message}
use babble.Common.Exec.{Exec, pure, fail, lift, gets, attempt, ◌>>=◌}
use babble.Common.Platform.{Platform}
use babble.Common.Lru
use babble.Common.Lru.{Lru}
use babble.Peers.PeerSet.{PeerSet, super_majority}
use babble.Hashgraph.Event.{Event, creator}
use babble.Hashgraph.Crypto.{Crypto}
use babble.Hashgraph.RoundInfo.{RoundInfo, witnesses}
use babble.Hashgraph.PeerSetCache.{get_peer_set}
use babble.Hashgraph.InmemStore.{InmemStore, get_event, get_round}
use babble.Hashgraph.State.{Hashgraph, on_store}
use babble.Hashgraph.Ancestry.{same_text, or_computed, strongly_see}

-- Store.GetPeerSet
abbrev pub peer_set_at : ℤ → Exec Hashgraph PeerSet
peer_set_at r h = (get_peer_set h.store.peer_set_cache r, h)

-- what a parent gives, unless there is none
abbrev pub of_parent : Bool → (String → Exec Hashgraph ℤ) → String → ℤ → Exec Hashgraph ℤ
of_parent true f parent default = pure default
of_parent false f parent default = f parent

abbrev pub larger : ℤ → ℤ → ℤ
larger a b = if ltb_ℤ a b then b else a

abbrev pub min_int_32 : ℤ
min_int_32 = negsuc 2147483647

abbrev pub keep_round : String → ℤ → Hashgraph → Hashgraph
keep_round x r h = record h { round_cache = (Lru.add h.round_cache x r).0 }

abbrev pub keep_witness : String → Bool → Hashgraph → Hashgraph
keep_witness x w h = record h { witness_cache = (Lru.add h.witness_cache x w).0 }

abbrev pub keep_timestamp : String → ℤ → Hashgraph → Hashgraph
keep_timestamp x t h = record h { timestamp_cache = (Lru.add h.timestamp_cache x t).0 }

module _ ⦃platform : Platform⦄ ⦃crypto : Crypto⦄ where
  -- the events of a list that an event strongly sees, the first error ending the loop
  unfoldable pub strongly_seen : String → List String → PeerSet → Exec Hashgraph (List String)
  strongly_seen y [] ps = pure []
  strongly_seen y (w ∷ ws) ps = do
    ss ← strongly_see y w ps
    seen ← strongly_seen y ws ps
    pure (if ss then w ∷ seen else seen)

  -- the end of `_round`: one more than the round of the parents if the event strongly sees a
  -- super-majority of its witnesses
  abbrev pub above_parents : Bool → String → ℤ → Exec Hashgraph ℤ
  above_parents true x parent_round = pure (pos 0)
  above_parents false x parent_round = do
    info ← on_store (get_round parent_round)
    ps ← peer_set_at parent_round
    seen ← strongly_seen x (witnesses info) ps
    pure (if leb (super_majority ps) (length seen) then parent_round +ℤ pos 1 else parent_round)

  -- `_round`, `round` being given
  unfoldable pub compute_round : (String → Exec Hashgraph ℤ) → String → Exec Hashgraph ℤ
  compute_round round_of x = do
    ex ← on_store (get_event x)
    sp ← of_parent (same_text ex.body.self_parent "") round_of ex.body.self_parent minus_one
    op ← of_parent (same_text ex.body.other_parent "") round_of ex.body.other_parent sp
    above_parents (eqb_ℤ (larger sp op) minus_one) x (larger sp op)

  unfoldable pub round : ℕ → String → Exec Hashgraph ℤ
  round zero x = lift panic
  round (suc n) x = λ h.
      let (cache, c) = Lru.get h.round_cache x in
      or_computed c (compute_round (round n) x) (keep_round x) (record h { round_cache = cache })

  -- the end of `_witness`, for a creator in the peer-set of the round
  abbrev pub first_of_round : Bool → ℕ → String → ℤ → Exec Hashgraph Bool
  first_of_round false n self_parent x_round = pure false
  first_of_round true n self_parent x_round = do
    sp ← of_parent (same_text self_parent "") (round n) self_parent minus_one
    pure (ltb_ℤ sp x_round)

  unfoldable pub compute_witness : ℕ → String → Exec Hashgraph Bool
  compute_witness n x = do
    ex ← on_store (get_event x)
    x_round ← round n x
    ps ← peer_set_at x_round
    first_of_round (is_some (lookup ps.by_pub_key (creator ex))) n ex.body.self_parent x_round

  unfoldable pub witness : ℕ → String → Exec Hashgraph Bool
  witness n x h =
      let (cache, c) = Lru.get h.witness_cache x in
      or_computed c (compute_witness n x) (keep_witness x) (record h { witness_cache = cache })

  -- an other-parent that is not known counts for nothing
  abbrev pub if_known : (String → Exec Hashgraph ℤ) → String → Result Event → Exec Hashgraph ℤ
  if_known timestamp_of x (ok e) = timestamp_of x
  if_known timestamp_of x (err e) = pure min_int_32
  if_known timestamp_of x panic = lift panic

  abbrev pub known_timestamp : (String → Exec Hashgraph ℤ) → String → Exec Hashgraph ℤ
  known_timestamp timestamp_of x = do
    op ← attempt (on_store (get_event x))
    if_known timestamp_of x op

  -- `_lamportTimestamp`, `lamportTimestamp` being given
  unfoldable pub compute_timestamp : (String → Exec Hashgraph ℤ) → String → Exec Hashgraph ℤ
  compute_timestamp timestamp_of x = do
    ex ← on_store (get_event x)
    sp ← of_parent (same_text ex.body.self_parent "") timestamp_of ex.body.self_parent minus_one
    op ←
        of_parent (same_text ex.body.other_parent "") (known_timestamp timestamp_of)
          ex.body.other_parent sp
    pure (larger sp op +ℤ pos 1)

  unfoldable pub lamport_timestamp : ℕ → String → Exec Hashgraph ℤ
  lamport_timestamp zero x = lift panic
  lamport_timestamp (suc n) x = λ h.
      let (cache, c) = Lru.get h.timestamp_cache x in
      or_computed c (compute_timestamp (lamport_timestamp n) x) (keep_timestamp x)
        (record h { timestamp_cache = cache })

  -- the message of a failure is the method's own
  abbrev pub round_or_message : Result ℤ → Exec Hashgraph ℤ
  round_or_message (ok r) = pure r
  round_or_message (err e) = fail (message "event has negative round")
  round_or_message panic = lift panic

  unfoldable pub round_diff : ℕ → String → String → Exec Hashgraph ℤ
  round_diff n x y = do
    x_result ← attempt (round n x)
    x_round ← round_or_message x_result
    y_result ← attempt (round n y)
    y_round ← round_or_message y_result
    pure (x_round -ℤ y_round)

unfoldable pub round_received : String → Exec Hashgraph ℤ
round_received x = do
  ex ← on_store (get_event x)
  pure (elim ex.round_received [ none ↦ minus_one | some r ↦ r ])

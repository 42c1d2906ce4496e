-- ===== src/Hashgraph/Ancestry.antt =====
-- src/hashgraph/hashgraph.go: which events are ancestors of an event, and which it strongly sees.
-- The answers without an error are cached.
pub mod Quorum
pub mod Memo
pub mod Tests
use babble.Base.{
  ℕ, suc, ◌+◌, String, ℤ, List, [], ◌∷◌, GoMap, keys, lookup, Option, none, some, leb_ℤ, leb,
  if◌then◌else◌, ite, ◌&&◌, Bool, true, false, String-discrete, string_key,
}
use babble.Common.Errors.{Result}
use babble.Common.Exec.{Exec, pure, gets, modify, ◌>>=◌, ◌>>◌}
use babble.Common.Platform.{Platform}
use babble.Common.Lru
use babble.Common.Lru.{Lru}
use babble.Peers.Peer.{Peer}
use babble.Peers.PeerSet.{PeerSet, super_majority}
use babble.Hashgraph.Event.{Event, EventCoordinates, CoordinatesMap, creator}
use babble.Hashgraph.Crypto.{Crypto}
use babble.Hashgraph.Block.{peers_hash}
use babble.Hashgraph.InmemStore.{InmemStore, get_event}
use babble.Hashgraph.State.{Hashgraph, PairKey, TripleKey, pair_key, triple_key, on_store}

-- an entry of the last ancestors at or above an index
abbrev pub reaches : Option EventCoordinates → ℤ → Bool
reaches none i = false
reaches (some c) i = leb_ℤ i c.index

-- `xlaok && yfdok && xla.Index >= yfd.Index`
abbrev pub passes : Option EventCoordinates → Option EventCoordinates → Bool
passes xla none = false
passes xla (some yfd) = reaches xla yfd.index

-- the peers' keys through which the first event sees the second
abbrev pub seen_through : CoordinatesMap → CoordinatesMap → String → Bool
seen_through last_ancestors first_descendants p =
    passes (lookup last_ancestors p) (lookup first_descendants p)

-- the loop of `_stronglySee`
abbrev pub count_seen : CoordinatesMap → CoordinatesMap → GoMap String Peer → ℕ
count_seen la fd [] = 0
count_seen la fd ((p, peer) ∷ m) =
    if seen_through la fd p then suc (count_seen la fd m) else count_seen la fd m

unfoldable pub strongly_sees : Event → Event → PeerSet → Bool
strongly_sees ex ey ps =
    leb (super_majority ps) (count_seen ex.last_ancestors ey.first_descendants ps.by_pub_key)

abbrev pub same_text : String → String → Bool
same_text x y = ite (String-discrete x y) true false

-- The answer of a cache, or else the computed one, which is kept unless it is an error.
abbrev pub or_computed :
    {A : Type 0} → Option A → Exec Hashgraph A → (A → Hashgraph → Hashgraph) → Exec Hashgraph A
or_computed (some c) compute keep = pure c
or_computed none compute keep = do a ← compute; modify (keep a); pure a

module _ ⦃platform : Platform⦄ where
  unfoldable pub compute_ancestor : String → String → Exec InmemStore Bool
  compute_ancestor x y = if same_text x y then pure true else do
    ex ← get_event x
    ey ← get_event y
    pure (reaches (lookup ex.last_ancestors (creator ey)) ey.body.index)

  unfoldable pub compute_self_ancestor : String → String → Exec InmemStore Bool
  compute_self_ancestor x y = if same_text x y then pure true else do
    ex ← get_event x
    ey ← get_event y
    pure (same_text (creator ex) (creator ey) && leb_ℤ ey.body.index ex.body.index)

unfoldable pub compute_strongly_see : String → String → PeerSet → Exec InmemStore Bool
compute_strongly_see x y ps = do ex ← get_event x; ey ← get_event y; pure (strongly_sees ex ey ps)

abbrev pub keep_ancestor : PairKey → Bool → Hashgraph → Hashgraph
keep_ancestor key a h = record h { ancestor_cache = (Lru.add h.ancestor_cache key a).0 }

abbrev pub keep_self_ancestor : PairKey → Bool → Hashgraph → Hashgraph
keep_self_ancestor key a h = record h {
  self_ancestor_cache = (Lru.add h.self_ancestor_cache key a).0;
}

abbrev pub keep_strongly_see : TripleKey → Bool → Hashgraph → Hashgraph
keep_strongly_see key a h = record h { strongly_see_cache = (Lru.add h.strongly_see_cache key a).0 }

module _ ⦃platform : Platform⦄ where
  -- whether `y` is an ancestor of `x`
  unfoldable pub ancestor : String → String → Exec Hashgraph Bool
  ancestor x y h =
      let (cache, c) = Lru.get h.ancestor_cache (record { x = x; y = y }) in
      or_computed c (on_store (compute_ancestor x y)) (keep_ancestor (record { x = x; y = y }))
        (record h { ancestor_cache = cache })

  unfoldable pub self_ancestor : String → String → Exec Hashgraph Bool
  self_ancestor x y h =
      let (cache, c) = Lru.get h.self_ancestor_cache (record { x = x; y = y }) in
      or_computed c (on_store (compute_self_ancestor x y))
        (keep_self_ancestor (record { x = x; y = y })) (record h { self_ancestor_cache = cache })

  unfoldable pub see : String → String → Exec Hashgraph Bool
  see x y = ancestor x y

  -- `peers.Hex()` is the third part of the key
  unfoldable pub strongly_see : ⦃crypto : Crypto⦄ → String → String → PeerSet → Exec Hashgraph Bool
  strongly_see x y ps h =
      let key : TripleKey = record { x = x; y = y; z = platform.encode_hex (peers_hash ps) } in
      let (cache, c) = Lru.get h.strongly_see_cache key in
      or_computed c (on_store (compute_strongly_see x y ps)) (keep_strongly_see key)
        (record h { strongly_see_cache = cache })

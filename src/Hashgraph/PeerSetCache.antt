-- ===== src/Hashgraph/PeerSetCache.antt =====
-- src/hashgraph/caches.go, PeerSetCache: the peer-set of every round, as the peer-sets of the rounds
-- at which it changed.
pub mod Lookup
pub mod Updates
pub mod Tests
use babble.Base.{
  ℕ, ℤ, pos, String, List, [], ◌∷◌, ◌++◌, map, GoMap, insert, lookup, Option, none, some, is_some,
  leb_ℤ, ltb_ℤ, if◌then◌else◌, ◌&&◌, ◌||◌, not, int_key, nat_key, string_key, Bool, true, false,
}
use babble.Common.Errors.{
  base, number, Result, ok, err, panic, new_store_err, key_not_found, key_already_exists,
}
use babble.Common.Platform.{Platform}
use babble.Peers.Peer.{Peer, peer_id, pub_key_string}
use babble.Peers.PeerSet.{PeerSet}

pub record PeerSetCache : Type 0 where
  pub rounds : List ℤ
  pub peer_sets : GoMap ℤ PeerSet
  pub repertoire_by_pub_key : GoMap String Peer
  pub repertoire_by_id : GoMap ℕ Peer
  pub first_rounds : GoMap ℕ ℤ

unfoldable pub new_peer_set_cache : PeerSetCache
new_peer_set_cache = record {
  rounds = [];
  peer_sets = [];
  repertoire_by_pub_key = [];
  repertoire_by_id = [];
  first_rounds = [];
}

-- `append` and `Sort`, on a slice that is sorted already
abbrev pub insert_sorted : ℤ → List ℤ → List ℤ
insert_sorted r [] = r ∷ []
insert_sorted r (x ∷ xs) = if ltb_ℤ r x then r ∷ x ∷ xs else x ∷ insert_sorted r xs

abbrev pub earlier : Option ℤ → ℤ → Bool
earlier none round = true
earlier (some fr) round = ltb_ℤ round fr

module _ ⦃platform : Platform⦄ where
  -- one turn of the loop of `Set`
  abbrev pub note_peer : PeerSetCache → ℤ → Peer → PeerSetCache
  note_peer c round p = record c {
    repertoire_by_pub_key = insert c.repertoire_by_pub_key (pub_key_string p) p;
    repertoire_by_id = insert c.repertoire_by_id (peer_id p) p;
    first_rounds =
        if earlier (lookup c.first_rounds (peer_id p)) round
        then insert c.first_rounds (peer_id p) round
        else c.first_rounds;
  }

  abbrev pub note_peers : PeerSetCache → ℤ → List Peer → PeerSetCache
  note_peers c round [] = c
  note_peers c round (p ∷ ps) = note_peers (note_peer c round p) round ps

  unfoldable pub set_peer_set : PeerSetCache → ℤ → PeerSet → Result PeerSetCache
  set_peer_set c round peer_set =
      if is_some (lookup c.peer_sets round)
      then err (new_store_err (base "PeerSetCache") key_already_exists (number round))
      else ok (
          note_peers
            (record c {
              peer_sets = insert c.peer_sets round peer_set;
              rounds = insert_sorted round c.rounds;
            })
            round peer_set.peers)

-- `c.peerSets[r]`; a missing entry would be a nil pointer
abbrev pub found_at : Option PeerSet → Result PeerSet
found_at none = panic
found_at (some ps) = ok ps

-- The loop of `Get`: the last round that is not after the given one.
abbrev pub situate : ℤ → ℤ → List ℤ → ℤ
situate round r [] = r
situate round r (s ∷ rest) = if leb_ℤ r round && ltb_ℤ round s then r else situate round s rest

before_or_among : PeerSetCache → ℤ → List ℤ → Result PeerSet
before_or_among c round [] = err (new_store_err (base "PeerSetCache") key_not_found (number round))
before_or_among c round (r ∷ rest) =
    if ltb_ℤ round r
    then found_at (lookup c.peer_sets r)
    else found_at (lookup c.peer_sets (situate round r rest))

get_unless : Option PeerSet → PeerSetCache → ℤ → Result PeerSet
unfolding before_or_among
get_unless (some ps) c round = ok ps
get_unless none c round = before_or_among c round c.rounds

unfoldable pub get_peer_set : PeerSetCache → ℤ → Result PeerSet
unfolding get_unless
get_peer_set c round = get_unless (lookup c.peer_sets round) c round

-- GetAll: the peers of every round at which they changed
unfoldable pub get_all : PeerSetCache → GoMap ℤ (List Peer)
get_all c = map (λ e. (e.0, e.1.peers)) c.peer_sets

first_round_of : Option ℤ → ℤ × Bool
first_round_of (some fr) = (fr, true)
first_round_of none = (pos 2147483647, false)

-- FirstRound, with math.MaxInt32 for a peer that is not known
unfoldable pub first_round : PeerSetCache → ℕ → ℤ × Bool
unfolding first_round_of
first_round c i = first_round_of (lookup c.first_rounds i)

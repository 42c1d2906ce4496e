-- ===== src/Peers/PeerSet/Members.antt =====
-- Who is in a peer-set after a peer is added or removed.
use babble.Base.{
  ℕ, ◌≡◌, refl, ap, sym, All, inl, inr, String, List, [], ◌∷◌, ◌++◌, GoMap, insert, lookup,
  lookup-insert, Option, none, some, is_some, if◌then◌else◌, select, ite, string_key, nat_key,
  arith, true, Bool-cases, String-discrete, ℕ_discrete,
}
use babble.Common.Platform.{Platform}
use babble.Peers.Peer.{Peer, peer_id, pub_key_string}
use babble.Peers.PeerSet.{
  PeerSet, new_peer_set, with_new_peer, with_removed_peer, other_key, index_ids, index_pub_keys,
}

module _ ⦃platform : Platform⦄ where
  -- the last peer of a list with an id, and with a key
  abbrev pub find_id : Option Peer → List Peer → ℕ → Option Peer
  find_id found [] i = found
  find_id found (p ∷ ps) i = find_id (ite (ℕ_discrete (peer_id p) i) (some p) found) ps i

  abbrev pub find_key : Option Peer → List Peer → String → Option Peer
  find_key found [] k = found
  find_key found (p ∷ ps) k =
      find_key (ite (String-discrete (pub_key_string p) k) (some p) found) ps k

  lookup-index_ids :
      (m : GoMap ℕ Peer) (ps : List Peer) (i : ℕ)
      → lookup (index_ids m ps) i ≡ find_id (lookup m i) ps i
  lookup-index_ids m [] i = refl
  lookup-index_ids m (p ∷ ps) i = rw (lookup-index_ids (insert m (peer_id p) p) ps i, lookup-insert)

  lookup-index_pub_keys :
      (m : GoMap String Peer) (ps : List Peer) (k : String)
      → lookup (index_pub_keys m ps) k ≡ find_key (lookup m k) ps k
  lookup-index_pub_keys m [] k = refl
  lookup-index_pub_keys m (p ∷ ps) k =
      rw (lookup-index_pub_keys (insert m (pub_key_string p) p) ps k, lookup-insert)

  -- The maps of a new peer-set hold, for each id and each key, the last peer of the list with it.
  pub new_peer_set_maps :
      (ps : List Peer) (i : ℕ) (k : String)
      → (lookup (new_peer_set ps).by_id i ≡ find_id none ps i)
        × (lookup (new_peer_set ps).by_pub_key k ≡ find_key none ps k)
  unfolding new_peer_set lookup
  new_peer_set_maps ps i k = (lookup-index_ids [] ps i, lookup-index_pub_keys [] ps k)

  find_id-append :
      (found : Option Peer) (ps qs : List Peer) (i : ℕ)
      → find_id found (ps ++ qs) i ≡ find_id (find_id found ps i) qs i
  find_id-append found [] qs i = refl
  find_id-append found (p ∷ ps) qs i =
      find_id-append (ite (ℕ_discrete (peer_id p) i) (some p) found) ps qs i

  -- In a peer-set whose maps are those of its list, a peer is added under its id only if the id is
  -- free, and no other id changes.
  pub lookup-with_new_peer :
      (ps : PeerSet) (p : Peer) (i : ℕ)
      → ps ≡ new_peer_set ps.peers
      → lookup (with_new_peer ps p).by_id i ≡ (
          if is_some (lookup ps.by_id (peer_id p))
          then lookup ps.by_id i
          else ite (ℕ_discrete (peer_id p) i) (some p) (lookup ps.by_id i))
  unfolding with_new_peer
  lookup-with_new_peer ps p i w =
      let same = λ (j : ℕ). ap (λ (t : PeerSet). lookup t.by_id j) w in
      elim (Bool-cases (is_some (lookup ps.by_id (peer_id p)))) [
        | inl e ↦ rw e (sym (same i))
        | inr e ↦ rw (
          e,
          (new_peer_set_maps (ps.peers ++ p ∷ []) i "").0,
          find_id-append,
          same i,
          (new_peer_set_maps ps.peers i "").0,
        )
      ]

  new_peer_set_again : (ps : List Peer) → new_peer_set ps ≡ new_peer_set (new_peer_set ps).peers
  unfolding new_peer_set
  new_peer_set_again ps = refl

  -- A peer-set that comes from `WithNewPeer` has the maps of its list.
  pub with_new_peer_maps :
      (ps : PeerSet) (p : Peer) → with_new_peer ps p ≡ new_peer_set (with_new_peer ps p).peers
  unfolding with_new_peer
  with_new_peer_maps ps p = elim (Bool-cases (is_some (lookup ps.by_id (peer_id p)))) [
    | inl e ↦ rw (e, with_new_peer) (new_peer_set_again ps.peers)
    | inr e ↦ rw (e, with_new_peer) (new_peer_set_again (ps.peers ++ p ∷ []))
  ]

  present :
      (ps : PeerSet) (p : Peer)
      → ps ≡ new_peer_set ps.peers
      → is_some (lookup ps.by_id (peer_id p)) ≡ true
      → with_new_peer ps p ≡ ps
  unfolding with_new_peer
  present ps p w e = rw e (sym w)

  added :
      (ps : PeerSet) (p : Peer)
      → ps ≡ new_peer_set ps.peers
      → is_some (lookup (with_new_peer ps p).by_id (peer_id p)) ≡ true
  added ps p w = rw (lookup-with_new_peer ps p (peer_id p) w) (ground arith)

  -- In a peer-set whose maps are those of its list, adding a peer twice is adding it once.
  pub with_new_peer_idem :
      (ps : PeerSet) (p : Peer)
      → ps ≡ new_peer_set ps.peers
      → with_new_peer (with_new_peer ps p) p ≡ with_new_peer ps p
  with_new_peer_idem ps p w =
      present (with_new_peer ps p) p (with_new_peer_maps ps p) (added ps p w)

  find_key-select :
      (p : Peer) (found : Option Peer) (ps : List Peer) (k : String)
      → All (λ q. q.pub_key_hex ≡ pub_key_string q) ps
      → find_key found (select (other_key p) ps) k
        ≡ ite (String-discrete p.pub_key_hex k) found (find_key found ps k)
  find_key-select p found [] k h = ground arith
  find_key-select p found (q ∷ ps) k h =
      let ih = λ (f : Option Peer). find_key-select p f ps k h.1 in
      ground (arith, h.0, ih found, ih (some q))

  -- Where the maps are those of the list and all keys are spelled in upper case, a removed peer's key
  -- is gone, and every other key stays.
  pub lookup-with_removed_peer :
      (ps : PeerSet) (p : Peer) (k : String)
      → ps ≡ new_peer_set ps.peers
      → All (λ q. q.pub_key_hex ≡ pub_key_string q) ps.peers
      → lookup (with_removed_peer ps p).by_pub_key k
        ≡ ite (String-discrete p.pub_key_hex k) none (lookup ps.by_pub_key k)
  unfolding with_removed_peer
  lookup-with_removed_peer ps p k w h = rw (
    (new_peer_set_maps (select (other_key p) ps.peers) 0 k).1,
    find_key-select p none ps.peers k h,
    ap (λ (t : PeerSet). lookup t.by_pub_key k) w,
    (new_peer_set_maps ps.peers 0 k).1,
  )

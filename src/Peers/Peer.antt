-- ===== src/Peers/Peer.antt =====
-- src/peers/peer.go. The field `id` caches `ID()` and is not modelled.
use babble.Base.{ℕ, ◌+◌, String, List, [], ◌∷◌, ◌==◌, if◌then◌else◌, ℤ, pos, minus_one}
use babble.Common.Platform.{Platform, Bytes}

pub record Peer : Type 0 where
  pub net_addr : String
  pub pub_key_hex : String
  pub moniker : String

unfoldable pub new_peer : String → String → String → Peer
new_peer pub_key_hex net_addr moniker = record {
  net_addr = net_addr;
  pub_key_hex = pub_key_hex;
  moniker = moniker;
}

module _ ⦃platform : Platform⦄ where
  unfoldable pub pub_key_bytes : Peer → Bytes
  pub_key_bytes p = platform.decode_hex p.pub_key_hex

  -- `ID()`, with `PublicKeyID` inlined
  unfoldable pub peer_id : Peer → ℕ
  peer_id p = platform.hash32 (pub_key_bytes p)

  unfoldable pub pub_key_string : Peer → String
  pub_key_string p = platform.to_upper p.pub_key_hex

  -- the loop of `ExcludePeer`; `i` is the index of the head of the list
  abbrev exclude_from : ℕ → List Peer → ℕ → ℤ → ℤ × List Peer
  exclude_from i [] peer index = (index, [])
  exclude_from i (p ∷ ps) peer index =
      if peer_id p == peer
      then exclude_from (i + 1) ps peer (pos i)
      else (let rest = exclude_from (i + 1) ps peer index in (rest.0, p ∷ rest.1))

  unfoldable pub exclude_peer : List Peer → ℕ → ℤ × List Peer
  exclude_peer peers peer = exclude_from 0 peers peer minus_one

-- ===== src/Hashgraph/RoundInfo/Tests.antt =====
-- Runs of the rounds.
use babble.Base.{◌≡◌, refl, ◌≤◌, [], ◌∷◌, true, false, ◌↔◌, length}
use babble.Common.Platform.Sample.{sample_platform}
use babble.Peers.PeerSet.{PeerSet, super_majority, len}
use babble.Hashgraph.RoundInfo.{
  RoundInfo, yea, add_created_event, set_fame, witnesses_decided, count_decided, witnesses,
}
use babble.Hashgraph.RoundInfo.Decided.{AllDecided, witnesses_decided_iff, decided_stays}

abbrev alone : PeerSet
alone = record {
  peers = record { net_addr = "a"; pub_key_hex = "0X01"; moniker = "alice" } ∷ [];
  by_pub_key = ("0X01", record { net_addr = "a"; pub_key_hex = "0X01"; moniker = "alice" }) ∷ [];
  by_id = (1, record { net_addr = "a"; pub_key_hex = "0X01"; moniker = "alice" }) ∷ [];
}

-- one witness, famous
abbrev one_witness : RoundInfo
one_witness = record {
  created_events = ("x", record { witness = true; famous = yea }) ∷ [];
  received_events = [];
  queued = false;
  decided = false;
}

witnesses_decided_iff_example : ((witnesses_decided one_witness alone).1 ≡ true) ↔ (
    AllDecided one_witness.created_events × (super_majority alone ≤ length (witnesses one_witness)))
witnesses_decided_iff_example = witnesses_decided_iff one_witness alone refl

decided : (witnesses_decided one_witness alone).1 ≡ true
unfolding witnesses_decided count_decided super_majority len
decided = refl

decided_stays_example :
    (witnesses_decided
      (set_fame (add_created_event (witnesses_decided one_witness alone).0 "y" true) "y" false)
      alone).1
    ≡ true
decided_stays_example = decided_stays one_witness alone alone "y" "y" true false decided

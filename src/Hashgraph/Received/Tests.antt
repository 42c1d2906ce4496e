-- ===== src/Hashgraph/Received/Tests.antt =====
-- Runs of DecideRoundReceived.
use babble.Base.{[], ◌∷◌}
use babble.Common.Platform.Sample.{sample_platform}
use babble.Hashgraph.State.{Hashgraph, new_hashgraph}
use babble.Hashgraph.Received.Remaining.{Remaining}
use babble.Hashgraph.Sample.{sample_crypto, with_events}

abbrev undetermined : Hashgraph
undetermined = record (new_hashgraph (with_events ("0X01" ∷ "0X02" ∷ []) 1)) {
  undetermined_events = "0X01" ∷ "0X02" ∷ [];
}

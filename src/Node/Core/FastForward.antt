-- ===== src/Node/Core/FastForward.antt =====
-- src/node/core.go, setHeadAndSeq and fastForward.
use babble.Base.{ℕ, ℤ, minus_one, String, Option, none, some, lookup, nat_key, if◌then◌else◌}
use babble.Common.Errors.{Result, ok, err, panic, message, is_store, empty}
use babble.Common.Exec.{Exec, lift, gets, modify, ◌>>=◌, ◌>>◌}
use babble.Common.Platform.{Platform}
use babble.Peers.Peer.{Peer}
use babble.Peers.PeerSet.{new_peer_set}
use babble.Hashgraph.Frame.{Frame}
use babble.Hashgraph.Crypto.{Crypto}
use babble.Hashgraph.Block.{Block}
use babble.Hashgraph.ParticipantEvents.{last_event}
use babble.Hashgraph.InmemStore.{get_event}
use babble.Hashgraph.State.{on_store}
use babble.Hashgraph.State.Owner.{on_hashgraph}
use babble.Hashgraph.Ancestry.{same_text}
use babble.Hashgraph.Anchor.{same_bytes, check_block}
use babble.Hashgraph.Reset.{reset}
use babble.Node.PeerSelector.{public_key_hex, validator_id}
use babble.Node.Core.{Core, core_owner, set_peers}

abbrev pub head_at : String → ℤ → Core → Core
head_at head seq c = record c { head = head; seq = seq }

-- LastEventFrom, whose error for an empty cache is dropped
abbrev pub last_or_none : Result String → Result String
last_or_none (err e) = if is_store e empty then ok "" else err e
last_or_none r = r

abbrev pub head_from : String → Exec Core (Unit {0})
head_from last = if same_text last "" then modify (head_at "" minus_one) else (do
  event ← on_hashgraph (on_store (get_event last))
  modify (head_at last event.body.index))

module _ ⦃platform : Platform⦄ where
  abbrev pub head_of : Option Peer → Exec Core (Unit {0})
  head_of none = modify (head_at "" minus_one)
  head_of (some p) = do
    r ← gets (λ (c : Core).
        last_event c.hashgraph.store.participant_events_cache (public_key_hex c.validator))
    last ← lift (last_or_none r)
    head_from last

  unfoldable pub set_head_and_seq : Exec Core (Unit {0})
  set_head_and_seq c =
      let known = c.hashgraph.store.peer_set_cache.repertoire_by_id in
      head_of (lookup known (validator_id c.validator)) c

module _ ⦃platform : Platform⦄ ⦃crypto : Crypto⦄ where
  -- the block has enough signatures of the frame's peers, and the frame has the block's hash
  abbrev pub trusted : Block → Frame → Result (Unit {0}) → Result (Unit {0})
  trusted block frame (ok _) =
      if same_bytes block.body.frame_hash (crypto.sha256 (crypto.frame_json frame))
      then ok tt
      else err (message "Invalid Frame Hash")
  trusted block frame (err e) = err e
  trusted block frame panic = panic

  unfoldable pub fast_forward : ℕ → Block → Frame → Exec Core (Unit {0})
  fast_forward n block frame = do
    lift (trusted block frame (check_block block (new_peer_set frame.peers)))
    on_hashgraph (reset n block frame)
    set_head_and_seq
    modify (set_peers (new_peer_set frame.peers))
    modify (λ (c : Core). record c { validators = new_peer_set frame.peers })

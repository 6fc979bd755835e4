-- ===== src/Node/Snapshot.antt =====
-- src/api/node/snapshot.rs: the handlers of `InstallSnapshot` and of its response, and the eviction
-- of stalled transfers of src/api/node/mod.rs. `now` is the instant at which the handler runs.
use arbitro_raft.Base.{
  ℕ, ◌+◌, ◌%◌, Bool, true, false, not, ◌&&◌, ◌||◌, List, [], ◌∷◌, ◌++◌, Option, none, some, ltb,
  ◌==◌, if◌then◌else◌, length, contains, saturating_add,
}
use arbitro_raft.Types.{SnapshotMeta, follower}
use arbitro_raft.Error.{ok, err, protocol, snapshot}
use arbitro_raft.Storage.{RaftStorage}
use arbitro_raft.Arena
use arbitro_raft.PeerMap.{PeerMap, get, insert, remove}
use arbitro_raft.Wire.{InstallSnapshot, InstallSnapshotResp, install_snapshot_resp}
use arbitro_raft.Node.{
  RaftNode, M, PendingSnapshot, fail, when, modify, get_node, on_storage, from_storage, ◌>>=◌, ◌>>◌,
  current_term, send_message, set_commit_index, step_down,
}

abbrev pub is_expired : ℕ → PendingSnapshot → Bool
is_expired now s = ltb s.deadline now

-- The transfers that stay, and how many go.
unfoldable pub live_transfers : ℕ → PeerMap PendingSnapshot → PeerMap PendingSnapshot
live_transfers now [] = []
live_transfers now ((p, s) ∷ rest) =
    let others = live_transfers now rest in if is_expired now s then others else (p, s) ∷ others

unfoldable pub evicted_count : ℕ → PeerMap PendingSnapshot → ℕ
evicted_count now [] = 0
evicted_count now ((p, s) ∷ rest) =
    let others = evicted_count now rest in if is_expired now s then others + 1 else others

abbrev pub same_meta : SnapshotMeta → SnapshotMeta → Bool
same_meta a b =
    (a.last_included_index == b.last_included_index)
    && (a.last_included_term == b.last_included_term)

abbrev pub snapshot_meta : InstallSnapshot → SnapshotMeta
snapshot_meta msg = record {
  last_included_index = msg.last_included_index;
  last_included_term = msg.last_included_term;
}

-- The transfer of the sender as the chunk finds it: a first chunk, and one of another snapshot,
-- start it anew.
unfoldable pub open_transfer : ℕ → InstallSnapshot → Option PendingSnapshot → PendingSnapshot
open_transfer until msg none = record { meta = snapshot_meta msg; bytes = []; deadline = until }
open_transfer until msg (some s) =
    if (msg.offset == 0) || not (same_meta s.meta (snapshot_meta msg))
    then record { meta = snapshot_meta msg; bytes = []; deadline = until }
    else s

module _ {S : Type 0} where
  unfoldable pub evict_stalled_snapshots : ℕ → RaftNode S → RaftNode S
  unfolding live_transfers evicted_count
  evict_stalled_snapshots now n = record n {
    pending_snapshots = live_transfers now n.pending_snapshots;
    metrics = record (n.metrics) {
      snapshots_evicted = n.metrics.snapshots_evicted + evicted_count now n.pending_snapshots;
    };
  }

  abbrev pub with_transfers : PeerMap PendingSnapshot → RaftNode S → RaftNode S
  with_transfers m n = record n { pending_snapshots = m }

  unfoldable pub count_dropped_frame : RaftNode S → RaftNode S
  count_dropped_frame n = record n {
    metrics = record (n.metrics) {
      frames_dropped_nonfatal = n.metrics.frames_dropped_nonfatal + 1;
    };
  }

  unfoldable pub recognize : ℕ → RaftNode S → RaftNode S
  recognize leader_id n = record n {
    soft_state = record (n.soft_state) {
      role = follower;
      is_leader = false;
      leader_id = some leader_id;
    };
  }

  unfoldable pub snapshot_reply : ℕ → ℕ → ℕ → M S (Unit {0})
  snapshot_reply from accepted next_offset = do
    n ← get_node
    send_message from (
        install_snapshot_resp
          (record { term = current_term n; next_offset = next_offset; accepted = accepted }))

  -- The commit index is raised to the boundary, never lowered.
  unfoldable pub raise_commit : ℕ → RaftNode S → RaftNode S
  raise_commit index n = if ltb n.soft_state.commit_index index then set_commit_index index n else n

  -- The cache, the tip and the boundary after the install.
  unfoldable pub seat_boundary : SnapshotMeta → RaftNode S → RaftNode S
  seat_boundary meta n = record n {
    log_metadata = Arena.clear n.log_metadata (saturating_add meta.last_included_index 1);
    cached_last_log = (meta.last_included_index, meta.last_included_term);
    snapshot_boundary = (meta.last_included_index, meta.last_included_term);
  }

-- Whether the log disagrees with the snapshot at its boundary.
abbrev pub boundary_conflict : Option ℕ → ℕ → Bool
boundary_conflict none last_term = false
boundary_conflict (some t) last_term = not (t == last_term)

module _ {S : Type 0} ⦃st : RaftStorage S⦄ where
  unfoldable pub discard_log : SnapshotMeta → Bool → M S (Unit {0})
  discard_log meta true = on_storage λ s. st.truncate_suffix s 1
  discard_log meta false =
      on_storage λ s. st.truncate_before s (saturating_add meta.last_included_index 1)

  -- The block that runs when the last chunk was accepted.
  unfoldable pub install_completed : SnapshotMeta → List ℕ → M S (Unit {0})
  install_completed meta bytes = do
    on_storage λ s. st.save_snapshot s meta bytes
    modify (raise_commit meta.last_included_index)
    local ← from_storage λ s. st.term_at s meta.last_included_index
    discard_log meta (boundary_conflict local meta.last_included_term)
    modify (seat_boundary meta)

  -- An accepted chunk, behind the bytes of the transfer.
  unfoldable pub accept_chunk : ℕ → ℕ → InstallSnapshot → SnapshotMeta → List ℕ → M S (Unit {0})
  accept_chunk until from msg meta bytes = do
    modify λ n.
        with_transfers
          (insert n.pending_snapshots from
            (record { meta = meta; bytes = bytes; deadline = until }))
          n
    when (not (msg.is_done == 0)) (do
      modify λ n. with_transfers (remove n.pending_snapshots from) n
      install_completed meta bytes)
    snapshot_reply from 1 (length bytes)

  -- The chunk against the transfer: its offset, and the cap on the bytes.
  unfoldable pub take_chunk : ℕ → ℕ → InstallSnapshot → List ℕ → PendingSnapshot → M S (Unit {0})
  take_chunk until from msg payload pending n =
      if not (length pending.bytes == msg.offset)
      then snapshot_reply from 0 (length pending.bytes) n
      else if ltb n.config.limits.max_snapshot_bytes
          (saturating_add (length pending.bytes) (length payload))
      then (do
        modify λ m. with_transfers (remove m.pending_snapshots from) m
        snapshot_reply from 0 0
        fail (snapshot "install snapshot exceeds max_snapshot_bytes"))
          n
      else accept_chunk until from msg pending.meta (pending.bytes ++ payload) n

  -- The handler behind the checks of the frame and of the sender.
  unfoldable pub receive_chunk : ℕ → ℕ → InstallSnapshot → List ℕ → M S (Unit {0})
  receive_chunk now from msg payload n =
      if ltb msg.term (current_term n)
      then snapshot_reply from 0 0 n
      else (do
        when (ltb (current_term n) msg.term) (step_down msg.term)
        modify (recognize msg.leader_id)
        m ← get_node
        let until = now + m.config.limits.snapshot_stall_timeout_ms
        let pending = open_transfer until msg (get m.pending_snapshots from)
        modify λ m. with_transfers (insert m.pending_snapshots from pending) m
        take_chunk until from msg payload pending)
          n

  unfoldable pub handle_install_snapshot : ℕ → ℕ → InstallSnapshot → List ℕ → M S (Unit {0})
  handle_install_snapshot now from msg payload n =
      if not (length payload % 4294967296 == msg.chunk_len)
      then (err (protocol "install snapshot chunk_len mismatch"), n)
      else if not (contains n.config.peers from)
      then (ok tt, count_dropped_frame n)
      else receive_chunk now from msg payload (evict_stalled_snapshots now n)

  unfoldable pub handle_install_snapshot_response : ℕ → InstallSnapshotResp → M S (Unit {0})
  handle_install_snapshot_response from resp = do
    n ← get_node
    when (ltb (current_term n) resp.term) (step_down resp.term)

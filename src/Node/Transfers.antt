-- ===== src/Node/Transfers.antt =====
-- The memory that snapshot transfers take on a follower: no transfer holds more than the cap.
use arbitro_raft.Base.{
  ℕ, ◌+◌, ◌%◌, ◌≤◌, ◌<◌, ◌≡◌, Bool, true, false, not, List, [], ◌++◌, ltb, ◌==◌, arith, ◌⊎◌, length,
  length-append, saturating_add, u64_max, inl, inr, Bool-cases, contains,
}
use arbitro_raft.Types.{SnapshotMeta}
use arbitro_raft.Error.{snapshot}
use arbitro_raft.Storage.{RaftStorage}
use arbitro_raft.PeerMap.{get, insert, remove}
use arbitro_raft.Wire.{InstallSnapshot}
use arbitro_raft.Node.{
  RaftNode, PendingSnapshot, modify, fail, ◌>>◌, current_term, when, step_down,
  demote_to_follower_keep_term, send_message, set_commit_index,
}
use arbitro_raft.Node.Rules.{bind_node}
use arbitro_raft.Node.Snapshot.{
  with_transfers, evict_stalled_snapshots, open_transfer, recognize, count_dropped_frame,
  snapshot_reply, raise_commit, seat_boundary, discard_log, install_completed, accept_chunk,
  take_chunk, receive_chunk, handle_install_snapshot,
}
use arbitro_raft.Node.Buffers.{
  AllWithin, insert-AllWithin, remove-AllWithin, live_transfers-AllWithin, open_transfer-within,
}

module _ {S : Type 0} where
  -- The node has this cap on a transfer, and every transfer is within it.
  pub record Within (cap : ℕ) (n : RaftNode S) : Type 0 where
    pub capped : n.config.limits.max_snapshot_bytes ≡ cap
    pub transfers : AllWithin cap n.pending_snapshots

  -- A change that leaves configuration and transfers alone, or ends all transfers.
  Within-same :
      {cap : ℕ} {n m : RaftNode S}
      → m.config ≡ n.config
      → (m.pending_snapshots ≡ n.pending_snapshots) ⊎ (m.pending_snapshots ≡ [])
      → Within cap n
      → Within cap m
  Within-same c (inl e) w = record { capped = rw c w.capped; transfers = rw e w.transfers }
  Within-same c (inr e) w = record { capped = rw c w.capped; transfers = rw e tt }

module _ {S : Type 0} ⦃st : RaftStorage S⦄ where
  step_down-Within : (cap t : ℕ) (n : RaftNode S) → Within cap n → Within cap (step_down t n).1
  unfolding step_down demote_to_follower_keep_term
  step_down-Within cap t n = Within-same (ground arith) (ground arith)

  install_completed-Within :
      (cap : ℕ) (meta : SnapshotMeta) (bytes : List ℕ) (n : RaftNode S)
      → Within cap n
      → Within cap (install_completed meta bytes n).1
  unfolding install_completed raise_commit set_commit_index discard_log seat_boundary
  install_completed-Within cap meta bytes n = Within-same (ground arith) (inl (ground arith))

  snapshot_reply-Within :
      (cap from accepted next : ℕ) (n : RaftNode S)
      → Within cap n
      → Within cap (snapshot_reply from accepted next n).1
  unfolding snapshot_reply send_message
  snapshot_reply-Within cap from accepted next n w = record {
    capped = w.capped;
    transfers = w.transfers;
  }

  with_transfer-Within :
      (cap from : ℕ) (s : PendingSnapshot) (n : RaftNode S)
      → length s.bytes ≤ cap
      → Within cap n
      → Within cap (with_transfers (insert n.pending_snapshots from s) n)
  with_transfer-Within cap from s n h w = record {
    capped = w.capped;
    transfers = insert-AllWithin cap from s n.pending_snapshots h w.transfers;
  }

  without_transfer-Within :
      (cap from : ℕ) (n : RaftNode S)
      → Within cap n
      → Within cap (with_transfers (remove n.pending_snapshots from) n)
  without_transfer-Within cap from n w = record {
    capped = w.capped;
    transfers = remove-AllWithin cap from n.pending_snapshots w.transfers;
  }

  -- The install of the last chunk.
  finish_chunk-Within :
      (b : Bool) (cap from : ℕ) (meta : SnapshotMeta) (bytes : List ℕ) (n : RaftNode S)
      → Within cap n
      → Within cap
          (when b
            (do
              modify λ m. with_transfers (remove m.pending_snapshots from) m
              install_completed meta bytes)
            n).1
  finish_chunk-Within true cap from meta bytes n w =
      install_completed-Within cap meta bytes _ (without_transfer-Within cap from n w)
  finish_chunk-Within false cap from meta bytes n w = w

  accept_chunk-Within :
      (cap until from : ℕ) (msg : InstallSnapshot) (meta : SnapshotMeta) (bytes : List ℕ)
      (n : RaftNode S)
      → length bytes ≤ cap
      → Within cap n
      → Within cap (accept_chunk until from msg meta bytes n).1
  unfolding accept_chunk
  accept_chunk-Within cap until from msg meta bytes n h w =
      let s : PendingSnapshot = record { meta = meta; bytes = bytes; deadline = until } in
      let n' = with_transfers (insert n.pending_snapshots from s) n in
      let f =
        finish_chunk-Within (not (msg.is_done == 0)) cap from meta bytes n'
          (with_transfer-Within cap from s n h w) in
      bind_node (Within cap)
        (when (not (msg.is_done == 0)) (do
          modify λ m. with_transfers (remove m.pending_snapshots from) m
          install_completed meta bytes))
        (λ _. snapshot_reply from 1 (length bytes)) n' f
        λ _ _. snapshot_reply-Within cap from 1 (length bytes) _ f

  take_chunk-Within :
      (cap until from : ℕ) (msg : InstallSnapshot) (payload : List ℕ) (s : PendingSnapshot)
      (n : RaftNode S)
      → cap < u64_max
      → Within cap n
      → Within cap (take_chunk until from msg payload s n).1
  unfolding take_chunk
  take_chunk-Within cap until from msg payload s n small w =
      elim (Bool-cases (length s.bytes == msg.offset)) [
        | inr e ↦ rw (take_chunk, e) (snapshot_reply-Within cap from 0 (length s.bytes) n w)
        | inl e ↦
            elim (Bool-cases (
              ltb n.config.limits.max_snapshot_bytes
                (saturating_add (length s.bytes) (length payload)))) [
                  | inl over ↦
                      rw (take_chunk, e, over)
                        (let n' = with_transfers (remove n.pending_snapshots from) n in
                          let r =
                            snapshot_reply-Within cap from 0 0 n'
                              (without_transfer-Within cap from n w) in
                          bind_node (Within cap) (snapshot_reply from 0 0)
                            (λ _. fail (snapshot "install snapshot exceeds max_snapshot_bytes")) n'
                            r (λ _ _. r))
                  | inr fits ↦
                      rw (take_chunk, e, fits)
                        (accept_chunk-Within cap until from msg s.meta (s.bytes ++ payload) n
                          (ground (arith, w.capped, fits, length-append s.bytes payload)) w)
                ]
      ]

  -- The chunk behind the recognition of the leader.
  recognized-Within :
      (cap now from : ℕ) (msg : InstallSnapshot) (payload : List ℕ) (m : RaftNode S)
      → cap < u64_max
      → Within cap m
      → let until = now + m.config.limits.snapshot_stall_timeout_ms in
        let s = open_transfer until msg (get m.pending_snapshots from) in
        Within cap
          (take_chunk until from msg payload s
            (with_transfers (insert m.pending_snapshots from s) m)).1
  recognized-Within cap now from msg payload m small w =
      let until = now + m.config.limits.snapshot_stall_timeout_ms in
      let s = open_transfer until msg (get m.pending_snapshots from) in
      take_chunk-Within cap until from msg payload s _ small (
        with_transfer-Within cap from s m
          (open_transfer-within cap until msg from m.pending_snapshots w.transfers) w)

  raised-Within :
      (b : Bool) (cap t : ℕ) (n : RaftNode S) → Within cap n → Within cap (when b (step_down t) n).1
  raised-Within true cap t n w = step_down-Within cap t n w
  raised-Within false cap t n w = w

  receive_chunk-Within :
      (cap now from : ℕ) (msg : InstallSnapshot) (payload : List ℕ) (n : RaftNode S)
      → cap < u64_max
      → Within cap n
      → Within cap (receive_chunk now from msg payload n).1
  unfolding receive_chunk recognize
  receive_chunk-Within cap now from msg payload n small w =
      elim (Bool-cases (ltb msg.term (current_term n))) [
        | inl old ↦ rw (receive_chunk, old) (snapshot_reply-Within cap from 0 0 n w)
        | inr new ↦
            let up = when (ltb (current_term n) msg.term) (step_down msg.term) in
            let r = raised-Within (ltb (current_term n) msg.term) cap msg.term n w in
            rw (receive_chunk, new)
              (bind_node (Within cap) up _ n r (λ _ _.
                recognized-Within cap now from msg payload (recognize msg.leader_id (up n).1) small
                  (record { capped = r.capped; transfers = r.transfers })))
      ]

  -- Whatever chunks arrive and however the call ends, a follower whose cap is below `u64::MAX` and
  -- whose transfers are within it has them within it afterwards.
  pub handle_install_snapshot-Within :
      (cap now from : ℕ) (msg : InstallSnapshot) (payload : List ℕ) (n : RaftNode S)
      → cap < u64_max
      → Within cap n
      → Within cap (handle_install_snapshot now from msg payload n).1
  unfolding handle_install_snapshot count_dropped_frame evict_stalled_snapshots
  handle_install_snapshot-Within cap now from msg payload n small w =
      elim (Bool-cases (length payload % 4294967296 == msg.chunk_len)) [
        | inr e ↦ rw (handle_install_snapshot, e) w
        | inl e ↦ elim (Bool-cases (contains n.config.peers from)) [
          | inr c ↦
              rw (handle_install_snapshot, e, c)
                (record { capped = w.capped; transfers = w.transfers })
          | inl c ↦
              rw (handle_install_snapshot, e, c)
                (receive_chunk-Within cap now from msg payload (evict_stalled_snapshots now n) small
                  (record {
                    capped = w.capped;
                    transfers = live_transfers-AllWithin cap now n.pending_snapshots w.transfers;
                  }))
        ]
      ]

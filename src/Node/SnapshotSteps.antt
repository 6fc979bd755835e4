-- ===== src/Node/SnapshotSteps.antt =====
-- The snapshot handlers respect what every handler respects: term, vote and published commit index.
use arbitro_raft.Base.{
  ℕ, ◌%◌, ◌≡◌, refl, Bool, true, false, not, List, ◌++◌, ltb, ◌==◌, arith, length, inl, inr,
  Bool-cases, contains, saturating_add,
}
use arbitro_raft.Types.{SnapshotMeta}
use arbitro_raft.Error.{snapshot}
use arbitro_raft.Storage.{RaftStorage}
use arbitro_raft.PeerMap.{insert, remove}
use arbitro_raft.Wire.{InstallSnapshot, InstallSnapshotResp}
use arbitro_raft.Node.{
  RaftNode, PendingSnapshot, modify, fail, ◌>>◌, current_term, when, step_down, send_message,
  set_commit_index,
}
use arbitro_raft.Node.Rules.{bind_node}
use arbitro_raft.Node.Monotone.{Monotone, Monotone-refl, Monotone-trans, raise_term-Monotone}
use arbitro_raft.Node.Snapshot.{
  with_transfers, recognize, count_dropped_frame, evict_stalled_snapshots, snapshot_reply,
  raise_commit, seat_boundary, discard_log, install_completed, accept_chunk, take_chunk,
  receive_chunk, handle_install_snapshot, handle_install_snapshot_response,
}

module _ {S : Type 0} ⦃st : RaftStorage S⦄ where
  -- A change of the transfers alone.
  pub snapshot_reply-Monotone :
      (from accepted next : ℕ) (n : RaftNode S) → Monotone n (snapshot_reply from accepted next n).1
  unfolding snapshot_reply send_message
  snapshot_reply-Monotone from accepted next n = ground arith

  install_completed-Monotone :
      (meta : SnapshotMeta) (bytes : List ℕ) (n : RaftNode S)
      → Monotone n (install_completed meta bytes n).1
  unfolding install_completed raise_commit set_commit_index discard_log seat_boundary
  install_completed-Monotone meta bytes n = ground arith

  -- The term and the vote are those of `n`, and so is the published commit index.
  same-Monotone :
      {n m k : RaftNode S}
      → m.hard_state ≡ n.hard_state
      → m.soft_state.commit_index ≡ n.soft_state.commit_index
      → m.commit_index_pub ≡ n.commit_index_pub
      → Monotone m k
      → Monotone n k
  same-Monotone {n} {m} {k} h s c w = ground (arith, h, s, c, w)

  finish_chunk-Monotone :
      (b : Bool) (from : ℕ) (meta : SnapshotMeta) (bytes : List ℕ) (n : RaftNode S)
      → Monotone n
          (when b
            (do
              modify λ m. with_transfers (remove m.pending_snapshots from) m
              install_completed meta bytes)
            n).1
  finish_chunk-Monotone true from meta bytes n =
      same-Monotone refl refl refl
        (install_completed-Monotone meta bytes (with_transfers (remove n.pending_snapshots from) n))
  finish_chunk-Monotone false from meta bytes n = Monotone-refl n

  accept_chunk-Monotone :
      (until from : ℕ) (msg : InstallSnapshot) (meta : SnapshotMeta) (bytes : List ℕ)
      (n : RaftNode S)
      → Monotone n (accept_chunk until from msg meta bytes n).1
  unfolding accept_chunk
  accept_chunk-Monotone until from msg meta bytes n =
      let s : PendingSnapshot = record { meta = meta; bytes = bytes; deadline = until } in
      let n' = with_transfers (insert n.pending_snapshots from s) n in
      let f = finish_chunk-Monotone (not (msg.is_done == 0)) from meta bytes n' in
      same-Monotone {m = n'} refl refl refl (
        bind_node (Monotone n')
          (when (not (msg.is_done == 0)) (do
            modify λ m. with_transfers (remove m.pending_snapshots from) m
            install_completed meta bytes))
          (λ _. snapshot_reply from 1 (length bytes)) n' f
          (λ _ _. Monotone-trans f (snapshot_reply-Monotone from 1 (length bytes) _)))

  take_chunk-Monotone :
      (until from : ℕ) (msg : InstallSnapshot) (payload : List ℕ) (s : PendingSnapshot)
      (n : RaftNode S)
      → Monotone n (take_chunk until from msg payload s n).1
  unfolding take_chunk
  take_chunk-Monotone until from msg payload s n =
      elim (Bool-cases (length s.bytes == msg.offset)) [
        | inr e ↦ rw (take_chunk, e) (snapshot_reply-Monotone from 0 (length s.bytes) n)
        | inl e ↦
            elim (Bool-cases (
              ltb n.config.limits.max_snapshot_bytes
                (saturating_add (length s.bytes) (length payload)))) [
                  | inl over ↦
                      rw (take_chunk, e, over)
                        (let n' = with_transfers (remove n.pending_snapshots from) n in
                          let r = snapshot_reply-Monotone from 0 0 n' in
                          same-Monotone {m = n'} refl refl refl (
                            bind_node (Monotone n') (snapshot_reply from 0 0)
                              (λ _. fail (snapshot "install snapshot exceeds max_snapshot_bytes"))
                              n' r (λ _ _. r)))
                  | inr fits ↦
                      rw (take_chunk, e, fits)
                        (accept_chunk-Monotone until from msg s.meta (s.bytes ++ payload) n)
                ]
      ]

  receive_chunk-Monotone :
      (now from : ℕ) (msg : InstallSnapshot) (payload : List ℕ) (n : RaftNode S)
      → Monotone n (receive_chunk now from msg payload n).1
  unfolding receive_chunk recognize
  receive_chunk-Monotone now from msg payload n =
      elim (Bool-cases (ltb msg.term (current_term n))) [
        | inl old ↦ rw (receive_chunk, old) (snapshot_reply-Monotone from 0 0 n)
        | inr new ↦
            let up = when (ltb (current_term n) msg.term) (step_down msg.term) in
            let r = raise_term-Monotone msg.term n in
            rw (receive_chunk, new)
              (bind_node (Monotone n) up _ n r (λ _ _.
                Monotone-trans r
                  (same-Monotone refl refl refl (take_chunk-Monotone _ from msg payload _ _))))
      ]

  pub handle_install_snapshot-Monotone :
      (now from : ℕ) (msg : InstallSnapshot) (payload : List ℕ) (n : RaftNode S)
      → Monotone n (handle_install_snapshot now from msg payload n).1
  unfolding handle_install_snapshot count_dropped_frame evict_stalled_snapshots
  handle_install_snapshot-Monotone now from msg payload n =
      elim (Bool-cases (length payload % 4294967296 == msg.chunk_len)) [
        | inr e ↦ rw (handle_install_snapshot, e) (Monotone-refl n)
        | inl e ↦ elim (Bool-cases (contains n.config.peers from)) [
          | inr c ↦
              rw (handle_install_snapshot, e, c)
                (same-Monotone {m = count_dropped_frame n} refl refl refl (Monotone-refl _))
          | inl c ↦
              rw (handle_install_snapshot, e, c)
                (same-Monotone refl refl refl
                  (receive_chunk-Monotone now from msg payload (evict_stalled_snapshots now n)))
        ]
      ]

  pub handle_install_snapshot_response-Monotone :
      (from : ℕ) (resp : InstallSnapshotResp) (n : RaftNode S)
      → Monotone n (handle_install_snapshot_response from resp n).1
  unfolding handle_install_snapshot_response
  handle_install_snapshot_response-Monotone from resp n = raise_term-Monotone resp.term n

-- ===== src/Node/Install.antt =====
-- The end of a snapshot transfer: where it leaves the tip, the boundary and the commit index.
use arbitro_raft.Base.{ℕ, ◌<◌, ◌≡◌, refl, max, Bool, true, false, List, arith}
use arbitro_raft.Types.{SnapshotMeta}
use arbitro_raft.Error.{ok}
use arbitro_raft.Storage.{RaftStorage}
use arbitro_raft.Node.{RaftNode, set_commit_index}
use arbitro_raft.Node.Append.{commit_up_to}
use arbitro_raft.Node.Snapshot.{install_completed, raise_commit, discard_log, seat_boundary}

-- The node stands at the boundary, with the commit index at least there and not below where it was.
pub record Seated {S : Type 0} (meta : SnapshotMeta) (n m : RaftNode S) : Type 0 where
  pub tip : m.cached_last_log ≡ (meta.last_included_index, meta.last_included_term)
  pub boundary : m.snapshot_boundary ≡ (meta.last_included_index, meta.last_included_term)
  pub commit : m.soft_state.commit_index ≡ max n.soft_state.commit_index meta.last_included_index

module _ {S : Type 0} ⦃st : RaftStorage S⦄ where
  discard_log-keeps :
      (meta : SnapshotMeta) (b : Bool) (n : RaftNode S)
      → (discard_log meta b n).1.soft_state ≡ n.soft_state
  unfolding discard_log
  discard_log-keeps meta true n = refl
  discard_log-keeps meta false n = refl

  raise_commit-max :
      (i : ℕ) (n : RaftNode S)
      → (raise_commit i n).soft_state.commit_index ≡ max n.soft_state.commit_index i
  unfolding raise_commit set_commit_index
  raise_commit-max i n = ground arith

  -- An install that succeeds leaves the tip and the boundary at the snapshot, and the commit index
  -- at the larger of the boundary and what it was.
  pub install_completed-Seated :
      (meta : SnapshotMeta) (bytes : List ℕ) (n : RaftNode S)
      → (install_completed meta bytes n).0 ≡ ok tt
      → Seated meta n (install_completed meta bytes n).1
  unfolding install_completed seat_boundary
  install_completed-Seated meta bytes n e =
      let i = meta.last_included_index in
      let stored : RaftNode S = record n { storage = (st.save_snapshot n.storage meta bytes).1 } in
      let raised = raise_commit i stored in
      record {
        tip = ground (arith, e);
        boundary = ground (arith, e);
        commit = ground (
          arith,
          e,
          raise_commit-max i stored,
          discard_log-keeps meta true raised,
          discard_log-keeps meta false raised,
        );
      }

  -- After an install that succeeds, of a snapshot below the commit index, the commit step of the
  -- append handler with a higher commit index of the leader lowers the commit index to the boundary.
  pub install_completed-lowers_commit :
      (meta : SnapshotMeta) (bytes : List ℕ) (n : RaftNode S) (leader_commit : ℕ)
      → (install_completed meta bytes n).0 ≡ ok tt
      → meta.last_included_index < n.soft_state.commit_index
      → n.soft_state.commit_index < leader_commit
      → (commit_up_to leader_commit (install_completed meta bytes n).1).soft_state.commit_index
        ≡ meta.last_included_index
  unfolding commit_up_to set_commit_index
  install_completed-lowers_commit meta bytes n c e low high =
      let s = install_completed-Seated meta bytes n e in ground (arith, s.tip, s.commit, low, high)

-- ===== src/Witness/Snapshots.antt =====
-- The theorems on snapshots and compactions, at nodes of the three-node configuration.
use arbitro_raft.Base.{false, ◌≡◌, refl, [], ◌∷◌, some, arith}
use arbitro_raft.Types.{SnapshotMeta, follower}
use arbitro_raft.Wire.{InstallSnapshot}
use arbitro_raft.Node.{RaftNode}
use arbitro_raft.Node.Append.{commit_up_to}
use arbitro_raft.Node.Snapshot.{
  discard_log, raise_commit, seat_boundary, install_completed, handle_install_snapshot,
}
use arbitro_raft.Node.Install.{install_completed-lowers_commit}
use arbitro_raft.Node.Transfers.{Within, handle_install_snapshot-Within}
use arbitro_raft.Error.{ok}
use arbitro_raft.PeerMap.{get}
use arbitro_raft.Node.Compaction.{maybe_compact}
use arbitro_raft.Node.Compacted.{IsCompacted, maybe_compact-IsCompacted}
use arbitro_raft.Witness.Memory.{Memory, memory, node, leader_node, one_entry}

abbrev meta : SnapshotMeta
meta = record { last_included_index = 4; last_included_term = 1 }

-- A follower that has committed up to 6.
abbrev ahead : RaftNode Memory
ahead = record (node 2 []) {
  soft_state = record { leader_id = some 1; is_leader = false; role = follower; commit_index = 6 };
}

install_completed-lowers_commit_example :
    (commit_up_to 9 (install_completed meta (1 ∷ []) ahead).1).soft_state.commit_index ≡ 4
unfolding install_completed discard_log raise_commit seat_boundary
install_completed-lowers_commit_example =
    install_completed-lowers_commit meta (1 ∷ []) ahead 9 refl (omega arith) (omega arith)

abbrev chunk : InstallSnapshot
chunk = record {
  term = 1;
  leader_id = 1;
  last_included_index = 4;
  last_included_term = 1;
  offset = 0;
  chunk_len = 2;
  is_done = 0;
}

handle_install_snapshot-Within_example :
    Within 4294967296 (handle_install_snapshot 0 1 chunk (7 ∷ 8 ∷ []) ahead).1
handle_install_snapshot-Within_example =
    handle_install_snapshot-Within 4294967296 0 1 chunk (7 ∷ 8 ∷ []) ahead (omega arith)
      (record { capped = refl; transfers = tt })

-- A leader with seventy applied entries and the debt of a compaction, whose peers have most of them.
abbrev indebted : RaftNode Memory
indebted =
    let n = leader_node one_entry in
    record n {
      last_applied = 70;
      cached_last_log = (70, 1);
      compaction_debt_entries = 4096;
      peer_progress =
          (2, record { next_index = 71; match_index = 70 })
          ∷ (3, record { next_index = 67; match_index = 66 })
          ∷ [];
    }

maybe_compact-IsCompacted_example :
    IsCompacted memory indebted
      (5 ∷ [])
      (record { last_included_index = 70; last_included_term = 1 })
      (maybe_compact (ok (5 ∷ [])) indebted).1
unfolding maybe_compact get
maybe_compact-IsCompacted_example =
    maybe_compact-IsCompacted (5 ∷ []) indebted
      (record { last_included_index = 70; last_included_term = 1 }) refl

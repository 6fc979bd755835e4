-- ===== src/Node/Commit.antt =====
-- src/api/node/replication/shared.rs: the commit rule of the leader.
use arbitro_raft.Base.{
  ℕ, min, Bool, false, ◌&&◌, List, Option, none, some, ltb, leb, ◌==◌, if◌then◌else◌, length,
}
use arbitro_raft.Error.{ok, err, corrupt_log}
use arbitro_raft.Storage.{RaftStorage}
use arbitro_raft.Arena
use arbitro_raft.PeerMap.{is_empty}
use arbitro_raft.Quorum.{subset_quorum_index}
use arbitro_raft.Node.{RaftNode, M, modify, ◌>>=◌, current_term, set_commit_index}

-- `q.is_some_and(|q| q >= index)`.
abbrev pub reaches : Option ℕ → ℕ → Bool
reaches none index = false
reaches (some q) index = leb index q

-- The smaller of the two sides, if both have an index.
abbrev pub min_of : Option ℕ → Option ℕ → Option ℕ
min_of (some a) (some b) = some (min a b)
min_of _ _ = none

module _ {S : Type 0} where
  -- `subset_quorum_index_into` with the progress, the identity and the tip of the node.
  unfoldable pub quorum_of : List ℕ → RaftNode S → Option ℕ
  quorum_of subset n =
      subset_quorum_index n.peer_progress n.config.node_id subset n.cached_last_log.0

  unfoldable pub meets : Option (List ℕ × List ℕ) → ℕ → RaftNode S → Bool
  unfolding quorum_of
  meets none index n = reaches (quorum_of n.config.peers n) index
  meets (some (old_peers, new_peers)) index n =
      reaches (quorum_of old_peers n) index && reaches (quorum_of new_peers n) index

  unfoldable pub index_meets_commit_quorum : ℕ → RaftNode S → Bool
  unfolding meets
  index_meets_commit_quorum index n = meets n.joint_peers index n

  unfoldable pub quorum_index : Option (List ℕ × List ℕ) → RaftNode S → Option ℕ
  unfolding quorum_of
  quorum_index none n = quorum_of n.config.peers n
  quorum_index (some (old_peers, new_peers)) n =
      min_of (quorum_of old_peers n) (quorum_of new_peers n)

  unfoldable pub propose_commit_reached : ℕ → ℕ → ℕ → RaftNode S → Bool
  unfolding index_meets_commit_quorum
  propose_commit_reached needed accepted last_index n = elim n.joint_peers [
    | some pair ↦ index_meets_commit_quorum last_index n
    | none ↦ leb needed accepted
  ]

module _ {S : Type 0} ⦃st : RaftStorage S⦄ where
  -- The term of the entry at the quorum index: the tip, the cache, or the storage, where a missing
  -- entry reads as term 0 and a found one is cached.
  unfoldable pub quorum_term : ℕ → M S ℕ
  quorum_term index n =
      if index == n.cached_last_log.0
      then (ok n.cached_last_log.1, n)
      else (elim (Arena.get_term n.log_metadata index) [
        | some t ↦ (ok t, n)
        | none ↦ elim (st.term_at n.storage index) [
          | err e ↦ (err e, n)
          | ok none ↦ (ok 0, n)
          | ok (some t) ↦ (
            ok t,
            if ltb 0 t then record n { log_metadata = Arena.append n.log_metadata index t } else n,
          )
        ]
      ])

  -- The end of `try_advance_commit_index`: only an entry of the current term is committed.
  unfoldable pub commit_if_current : ℕ → M S (Unit {0})
  commit_if_current index = do
    term ← quorum_term index
    modify λ n. if term == current_term n then set_commit_index index n else n

  unfoldable pub try_advance_commit_index : M S (Unit {0})
  try_advance_commit_index n =
      if ltb 1 (length n.config.peers) && is_empty n.peer_progress
      then (ok tt, n)
      else if leb n.cached_last_log.0 n.soft_state.commit_index
      then (ok tt, n)
      else (elim (quorum_index n.joint_peers n) [
        | none ↦ (ok tt, n)
        | some q ↦ if leb q n.soft_state.commit_index then (ok tt, n) else commit_if_current q n
      ])

  -- The term of an entry of the leader's log: 0 before the log, the tip, the cache, the snapshot
  -- boundary, or the storage.
  unfoldable pub term_at : ℕ → M S ℕ
  term_at index n =
      if index == 0
      then (ok 0, n)
      else if index == n.cached_last_log.0
      then (ok n.cached_last_log.1, n)
      else (elim (Arena.get_term n.log_metadata index) [
        | some t ↦ (ok t, n)
        | none ↦
            if index == n.snapshot_boundary.0
            then (ok n.snapshot_boundary.1, n)
            else (elim (st.term_at n.storage index) [
              | err e ↦ (err e, n)
              | ok none ↦ (err (corrupt_log "missing term at index"), n)
              | ok (some t) ↦
                  (ok t, record n { log_metadata = Arena.append n.log_metadata index t })
            ])
      ])

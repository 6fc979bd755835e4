-- ===== src/Node/Compaction.antt =====
-- src/api/node/log_compaction.rs: the trigger of a compaction, its horizon and the compaction. What
-- the snapshot of the state machine returns is an argument.
use arbitro_raft.Base.{
  ℕ, ◌+◌, ◌-◌, Bool, false, not, ◌&&◌, ◌||◌, List, [], ◌∷◌, Option, none, some, ltb, leb, ◌==◌,
  if◌then◌else◌,
}
use arbitro_raft.Types.{SnapshotMeta}
use arbitro_raft.Error.{Result, ok}
use arbitro_raft.Storage.{RaftStorage}
use arbitro_raft.PeerMap.{get, is_empty}
use arbitro_raft.Node.{
  RaftNode, M, pure, when, modify, on_storage, from_storage, ◌>>=◌, ◌>>◌, is_leader,
}
use arbitro_raft.Node.Commit.{term_at}

-- A threshold of 0 turns its trigger off.
abbrev reached : ℕ → ℕ → Bool
reached threshold debt = not (threshold == 0) && leb threshold debt

-- A snapshot at or beyond what is applied.
abbrev pub covers : Option SnapshotMeta → ℕ → Bool
covers none last_applied = false
covers (some existing) last_applied = leb last_applied existing.last_included_index

module _ {S : Type 0} where
  unfoldable pub compaction_due : RaftNode S → Bool
  compaction_due n =
      reached n.config.limits.compaction_threshold_entries n.compaction_debt_entries
      || reached n.config.limits.compaction_threshold_bytes n.compaction_debt_bytes

  abbrev pub matched_of : RaftNode S → ℕ → ℕ
  matched_of n peer = elim (get n.peer_progress peer) [ none ↦ 0 | some p ↦ p.match_index ]

  -- The loop over the voters, which lowers the horizon to what each has.
  unfoldable pub voter_horizon : RaftNode S → List ℕ → ℕ → ℕ
  voter_horizon n [] horizon = horizon
  voter_horizon n (peer ∷ peers) horizon = voter_horizon n peers (
      if peer == n.config.node_id
      then horizon
      else if ltb (matched_of n peer) horizon
      then matched_of n peer
      else horizon)

  unfoldable pub compaction_horizon : RaftNode S → ℕ
  unfolding voter_horizon
  compaction_horizon n =
      (if is_leader n then voter_horizon n n.config.peers n.last_applied else n.last_applied)
      - n.config.limits.compaction_min_retain

  unfoldable pub settle_debt : RaftNode S → RaftNode S
  settle_debt n = record n { compaction_debt_entries = 0; compaction_debt_bytes = 0 }

  unfoldable pub count_compaction : RaftNode S → RaftNode S
  count_compaction n = record n {
    metrics = record (n.metrics) { log_compactions = n.metrics.log_compactions + 1 };
  }

module _ {S : Type 0} ⦃st : RaftStorage S⦄ where
  -- The compaction behind the snapshot of the state machine.
  unfoldable pub save_and_truncate : SnapshotMeta → ℕ → List ℕ → M S SnapshotMeta
  unfolding settle_debt count_compaction
  save_and_truncate meta up_to bytes = do
    on_storage λ s. st.save_snapshot s meta bytes
    modify λ n.
        settle_debt
          (record n { snapshot_boundary = (meta.last_included_index, meta.last_included_term) })
    when (ltb 0 up_to) (on_storage λ s. st.truncate_before s up_to)
    modify count_compaction
    pure meta

module _ {S : Type 0} ⦃st : RaftStorage S⦄ (snapshot : Result (List ℕ)) where
  unfoldable pub compact_with_horizon : ℕ → M S SnapshotMeta
  unfolding term_at save_and_truncate
  compact_with_horizon up_to n =
      let index = n.last_applied in
      (term_at index >>= λ term.
      from_storage (λ _. snapshot)
      >>= save_and_truncate (record { last_included_index = index; last_included_term = term })
          up_to)
        n

  -- What follows the probe of the snapshot that is there.
  unfoldable pub compact_unless_covered : Option SnapshotMeta → M S (Option SnapshotMeta)
  unfolding compact_with_horizon compaction_horizon settle_debt
  compact_unless_covered existing n =
      if covers existing n.last_applied
      then (ok none, settle_debt n)
      else (compact_with_horizon (compaction_horizon n) >>= λ meta. pure (some meta)) n

  unfoldable pub maybe_compact : M S (Option SnapshotMeta)
  unfolding compaction_due compact_unless_covered is_empty
  maybe_compact n =
      if not (compaction_due n)
      then (ok none, n)
      else if not (is_empty n.pending_snapshots)
      then (ok none, n)
      else if n.last_applied == 0
      then (ok none, n)
      else (from_storage st.load_snapshot_meta >>= compact_unless_covered) n

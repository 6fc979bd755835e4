-- ===== src/Node/Heartbeat.antt =====
-- src/api/node/replication/heartbeat.rs and shared.rs: the bare heartbeats that keep the followers
-- of a leader quiet while a snapshot install runs. `now` is the instant at which progress that is
-- missing is set up.
use arbitro_raft.Base.{
  ℕ, ◌-◌, not, ◌&&◌, List, [], ◌∷◌, ◌++◌, Option, none, some, ◌==◌, if◌then◌else◌, retain, u64_max,
}
use arbitro_raft.Error.{peer_unknown, Result, ok, err}
use arbitro_raft.Storage.{RaftStorage}
use arbitro_raft.PeerMap.{is_empty, get}
use arbitro_raft.Wire.{AppendEntries, append_entries_vectored}
use arbitro_raft.Node.{RaftNode, M, pure, from_storage, ◌>>=◌, is_leader, current_term}
use arbitro_raft.Node.Commit.{term_at}
use arbitro_raft.Node.Campaign.{initialize_leader_progress}

module _ {S : Type 0} where
  unfoldable pub ensure_leader_progress_initialized : ℕ → RaftNode S → RaftNode S
  unfolding initialize_leader_progress
  ensure_leader_progress_initialized now n =
      if is_empty n.peer_progress then initialize_leader_progress now n else n

  -- The frame behind a previous entry.
  abbrev pub heartbeat_at : ℕ → ℕ → RaftNode S → AppendEntries
  heartbeat_at prev_index prev_term n = record {
    term = current_term n;
    leader_id = n.config.node_id;
    prev_log_index = prev_index;
    prev_log_term = prev_term;
    leader_commit = n.soft_state.commit_index;
    entry_count = 0;
    pad = n.read_probe_seq;
  }

  -- What the loop does with a frame that was built, or not.
  abbrev pub send_built : ℕ → Result (Option AppendEntries) → RaftNode S → RaftNode S
  send_built peer (ok (some req)) n = record n {
    outbox = n.outbox ++ (peer, append_entries_vectored req []) ∷ [];
  }
  send_built peer (ok none) n = n
  send_built peer (err e) n = n

  -- The voters and the learners, without the node itself and `skip`.
  unfoldable pub heartbeat_targets : ℕ → RaftNode S → List ℕ
  heartbeat_targets skip n =
      retain (λ p. not (p == n.config.node_id) && not (p == skip))
        (n.config.peers ++ n.config.learners)

module _ {S : Type 0} ⦃st : RaftStorage S⦄ where
  -- The previous index, its term, and the next index.
  unfoldable pub append_prev_for_peer : ℕ → M S (ℕ × ℕ × ℕ)
  append_prev_for_peer peer n = elim (get n.peer_progress peer) [
    | none ↦ (err (peer_unknown peer), n)
    | some p ↦ (term_at (p.next_index - 1) >>= λ t. pure (p.next_index - 1, t, p.next_index)) n
  ]

  -- The backlog is read for its error alone.
  unfoldable pub wire_behind : ℕ × ℕ × ℕ → M S (Option AppendEntries)
  wire_behind (prev_index, prev_term, next_index) =
      (from_storage λ s. st.read_entries s next_index u64_max) >>= λ _ n.
      (ok (some (heartbeat_at prev_index prev_term n)), n)

  unfoldable pub build_heartbeat_wire : ℕ → ℕ → M S (Option AppendEntries)
  unfolding ensure_leader_progress_initialized append_prev_for_peer wire_behind
  build_heartbeat_wire now peer n =
      if is_leader n
      then (append_prev_for_peer peer >>= wire_behind) (ensure_leader_progress_initialized now n)
      else (ok none, n)

  -- The `for` loop over the targets.
  unfoldable pub send_bare_heartbeats : ℕ → List ℕ → RaftNode S → RaftNode S
  send_bare_heartbeats now [] n = n
  send_bare_heartbeats now (peer ∷ peers) n =
      let (built, m) = build_heartbeat_wire now peer n in
      send_bare_heartbeats now peers (send_built peer built m)

  unfoldable pub send_bare_heartbeats_except : ℕ → ℕ → RaftNode S → RaftNode S
  unfolding heartbeat_targets send_bare_heartbeats
  send_bare_heartbeats_except now skip n =
      if is_leader n then send_bare_heartbeats now (heartbeat_targets skip n) n else n

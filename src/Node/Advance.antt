-- ===== src/Node/Advance.antt =====
-- The commit rule of src/api/node/replication/shared.rs: when the leader moves its commit index.
use arbitro_raft.Base.{ℕ, ◌<◌, ◌≡◌, refl, Bool, true, ◌&&◌, List, [], ◌∷◌, Option, none, some, ◌⊎◌}
use arbitro_raft.Error.{ok}
use arbitro_raft.Storage.{RaftStorage}
use arbitro_raft.Quorum.{quorum, subset_quorum_index}
use arbitro_raft.Quorum.Index.{majority_has, subset_quorum_index-majority}
use arbitro_raft.Node.{RaftNode, current_term}
use arbitro_raft.Node.Commit.{reaches, quorum_of, meets, index_meets_commit_quorum, quorum_term}

module _ {S : Type 0} where
  -- A majority of the voters has replicated up to `index`, by what the leader knows; during a
  -- transition a majority of the old voters and one of the new.
  abbrev pub replicated : Option (List ℕ × List ℕ) → ℕ → RaftNode S → Bool
  replicated none index n =
      majority_has n.peer_progress n.config.node_id n.config.peers n.cached_last_log.0 index
  replicated (some (old_peers, new_peers)) index n =
      majority_has n.peer_progress n.config.node_id old_peers n.cached_last_log.0 index
      && majority_has n.peer_progress n.config.node_id new_peers n.cached_last_log.0 index

  reaches-quorum_of :
      (subset : List ℕ) (n : RaftNode S) (i : ℕ)
      → reaches (quorum_of subset n) i
        ≡ majority_has n.peer_progress n.config.node_id subset n.cached_last_log.0 i
  unfolding quorum_of subset_quorum_index quorum
  reaches-quorum_of [] n i = refl
  reaches-quorum_of (p ∷ ps) n i =
      let (q, e, f) =
        subset_quorum_index-majority n.peer_progress n.config.node_id p ps n.cached_last_log.0 in
      rw e (f i)

  -- The commit test of an index passes exactly when a majority of the voters, of both sets in a
  -- transition, has replicated up to it.
  pub index_meets_commit_quorum-replicated :
      (index : ℕ) (n : RaftNode S)
      → index_meets_commit_quorum index n ≡ replicated n.joint_peers index n
  unfolding index_meets_commit_quorum meets
  index_meets_commit_quorum-replicated index n = go n.joint_peers
    where
      go : (pair : Option (List ℕ × List ℕ)) → meets pair index n ≡ replicated pair index n
      go none = reaches-quorum_of n.config.peers n index
      go (some (old_peers, new_peers)) =
          rw (reaches-quorum_of old_peers n index, reaches-quorum_of new_peers n index) refl

module _ {S : Type 0} ⦃st : RaftStorage S⦄ where
  -- The commit index stands still, or it rises to an index that a majority has replicated, whose
  -- entry is of the current term.
  abbrev pub Advanced : RaftNode S → RaftNode S → Type 0
  Advanced n m =
      (m.soft_state.commit_index ≡ n.soft_state.commit_index)
      ⊎ ((n.soft_state.commit_index < m.soft_state.commit_index)
          × (replicated n.joint_peers m.soft_state.commit_index n ≡ true)
          × ((quorum_term m.soft_state.commit_index n).0 ≡ ok (current_term n)))

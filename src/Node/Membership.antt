-- ===== src/Node/Membership.antt =====
-- src/api/node/membership.rs: what a control entry does to a node.
use arbitro_raft.Base.{
  ℕ, ◌+◌, Bool, true, false, not, ◌&&◌, ◌||◌, List, [], ◌∷◌, ◌++◌, Option, none, some, ◌==◌,
  if◌then◌else◌, contains, retain, saturating_add,
}
use arbitro_raft.Error.{invalid_config}
use arbitro_raft.Storage.{RaftStorage}
use arbitro_raft.PeerMap.{PeerMap, PeerProgress, insert, remove, contains_key, keys}
use arbitro_raft.Membership.{
  ConfigChangePhase, joint, final, add_learner, remove_learner, ConfigChangeEntry, is_noop_entry,
  decode,
}
use arbitro_raft.Node.{
  RaftNode, M, pure, fail, when, modify, get_node, ◌>>=◌, ◌>>◌, is_leader, is_voter, current_term,
  step_down,
}

-- `if !xs.contains(p) { xs.push(p) }` for each `p`.
unfoldable pub merge : List ℕ → List ℕ → List ℕ
merge xs [] = xs
merge xs (p ∷ ps) = merge (if contains xs p then xs else xs ++ p ∷ []) ps

-- `xs.retain(|p| !ys.contains(p))`.
abbrev pub without : List ℕ → List ℕ → List ℕ
without xs ys = retain (λ p. not (contains ys p)) xs

-- `AddLearner`: a peer that is neither a voter nor a learner becomes a learner.
unfoldable pub add_learners : List ℕ → List ℕ → List ℕ → List ℕ
add_learners peers learners [] = learners
add_learners peers learners (p ∷ ps) =
    add_learners peers
      (if contains peers p || contains learners p then learners else learners ++ p ∷ []) ps

-- The entries of a map whose peer is no longer a member are removed, one `swap_remove` each.
unfoldable pub remove_all {ℓ} : {V : Type ℓ} → List ℕ → PeerMap V → PeerMap V
remove_all [] m = m
remove_all (p ∷ ps) m = remove_all ps (remove m p)

abbrev pub fresh_progress : ℕ → PeerProgress
fresh_progress last_index = record { next_index = saturating_add last_index 1; match_index = 0 }

-- Each member but the node itself gets progress if it has none.
unfoldable pub insert_missing : ℕ → ℕ → List ℕ → PeerMap PeerProgress → PeerMap PeerProgress
insert_missing self_id last_index [] m = m
insert_missing self_id last_index (p ∷ ps) m = insert_missing self_id last_index ps (
    if p == self_id
    then m
    else if contains_key m p
    then m
    else insert m p (fresh_progress last_index))

module _ {S : Type 0} where
  abbrev pub is_member : RaftNode S → ℕ → Bool
  is_member n p = contains n.config.peers p || contains n.config.learners p

  unfoldable pub reconcile_leader_progress_with_config : RaftNode S → RaftNode S
  unfolding remove_all insert_missing
  reconcile_leader_progress_with_config n =
      let stale = retain (λ p. not (is_member n p)) (keys n.peer_progress) in
      record n {
        peer_progress =
            insert_missing n.config.node_id n.cached_last_log.0
              (n.config.peers ++ n.config.learners) (remove_all stale n.peer_progress);
        pending_snapshots = remove_all stale n.pending_snapshots;
        last_voter_contact = remove_all stale n.last_voter_contact;
      }

  -- The voters of the configuration, with the learners that are no voters.
  abbrev pub with_voters : List ℕ → Option (List ℕ × List ℕ) → RaftNode S → RaftNode S
  with_voters peers pair n = record n {
    config = record (n.config) { peers = peers; learners = without n.config.learners peers };
    joint_peers = pair;
  }

  abbrev pub with_learners : List ℕ → RaftNode S → RaftNode S
  with_learners learners n = record n { config = record (n.config) { learners = learners } }

  -- The `match` on the phase.
  unfoldable pub adopt : ConfigChangePhase → List ℕ → List ℕ → M S (Unit {0})
  unfolding merge add_learners
  adopt joint old_peers new_peers =
      modify (with_voters (merge old_peers new_peers) (some (old_peers, new_peers)))
  adopt final old_peers [] = fail (invalid_config "config-change Final phase with empty new_peers")
  adopt final old_peers (p ∷ ps) = modify (with_voters (p ∷ ps) none)
  adopt add_learner old_peers new_peers =
      modify λ n. with_learners (add_learners n.config.peers n.config.learners new_peers) n
  adopt remove_learner old_peers new_peers =
      modify λ n. with_learners (without n.config.learners new_peers) n

  unfoldable pub count_config_change : RaftNode S → RaftNode S
  count_config_change n = record n {
    metrics = record (n.metrics) { config_changes_applied = n.metrics.config_changes_applied + 1 };
  }

  unfoldable pub revert_joint_activation : List ℕ → RaftNode S → RaftNode S
  unfolding reconcile_leader_progress_with_config
  revert_joint_activation old_peers n =
      let n' = record n { config = record (n.config) { peers = old_peers }; joint_peers = none } in
      if is_leader n' then reconcile_leader_progress_with_config n' else n'

  unfoldable pub revert_learner_activation : List ℕ → RaftNode S → RaftNode S
  unfolding reconcile_leader_progress_with_config
  revert_learner_activation prev_learners n =
      let n' = with_learners prev_learners n in
      if is_leader n' then reconcile_leader_progress_with_config n' else n'

module _ {S : Type 0} ⦃st : RaftStorage S⦄ where
  unfoldable pub apply_config_change : ConfigChangeEntry → M S (Unit {0})
  apply_config_change entry = do
    modify count_config_change
    adopt entry.phase entry.old_peers entry.new_peers
    n ← get_node
    when (is_leader n) (modify reconcile_leader_progress_with_config)
    n ← get_node
    when (is_leader n && not (is_voter n n.config.node_id)) (step_down (current_term n))

  -- Whether the payload was a control entry; if so it is applied.
  unfoldable pub apply_if_config_change : List ℕ → M S Bool
  unfolding apply_config_change
  apply_if_config_change payload =
      if is_noop_entry payload then pure true else (elim (decode payload) [
        | none ↦ pure false
        | some entry ↦ do apply_config_change entry; pure true
      ])

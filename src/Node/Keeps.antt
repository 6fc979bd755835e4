-- ===== src/Node/Keeps.antt =====
-- What the parts of the append handler leave alone: the term, the vote and the role.
use arbitro_raft.Base.{ℕ, ◌≡◌, ◌∙◌, false, List, [], ◌∷◌, Option, none, some, arith, saturating_add}
use arbitro_raft.Types.{LogEntry}
use arbitro_raft.Storage.{RaftStorage}
use arbitro_raft.Membership.{ConfigChangeEntry}
use arbitro_raft.Wire.{AppendEntries}
use arbitro_raft.Wire.Entries.{entry_iter}
use arbitro_raft.Node.{RaftNode, is_leader, storage_truncate}
use arbitro_raft.Node.Membership.{
  apply_config_change, adopt, count_config_change, reconcile_leader_progress_with_config,
}
use arbitro_raft.Node.Rules.{bind_node}
use arbitro_raft.Node.Append.{
  local_term, compare_entry, scan_entries, append_new, apply_append_entries, note_appended,
  latest_config, activate, prev_matches,
}

-- The two nodes agree on the hard state, on the soft state and on who they are.
pub record Keeps {S : Type 0} (n m : RaftNode S) : Type 0 where
  pub hard_state : m.hard_state ≡ n.hard_state
  pub soft_state : m.soft_state ≡ n.soft_state
  pub commit_index_pub : m.commit_index_pub ≡ n.commit_index_pub
  pub outbox : m.outbox ≡ n.outbox

pub Keeps-trans : {S : Type 0} {n m k : RaftNode S} → Keeps n m → Keeps m k → Keeps n k
Keeps-trans a b = record {
  hard_state = b.hard_state ∙ a.hard_state;
  soft_state = b.soft_state ∙ a.soft_state;
  commit_index_pub = b.commit_index_pub ∙ a.commit_index_pub;
  outbox = b.outbox ∙ a.outbox;
}

module _ {S : Type 0} ⦃st : RaftStorage S⦄ where
  pub storage_truncate-Keeps : (from : ℕ) (n : RaftNode S) → Keeps n (storage_truncate from n).1
  unfolding storage_truncate
  storage_truncate-Keeps from n = ground arith

  pub local_term-node : (index : ℕ) (n : RaftNode S) → (local_term index n).1 ≡ n
  unfolding local_term
  local_term-node index n = ground arith

  pub scan_entries-Keeps :
      (es : List LogEntry) (expected : ℕ) (n : RaftNode S) → Keeps n (scan_entries expected es n).1
  unfolding scan_entries compare_entry
  scan_entries-Keeps [] expected n = ground arith
  scan_entries-Keeps (e ∷ es) expected n = ground (
    arith,
    local_term-node e.index n,
    scan_entries-Keeps es (saturating_add expected 1) n,
    storage_truncate-Keeps e.index n,
  )

  -- A node that does not lead keeps its term, vote and role whatever configuration it adopts.
  pub apply_config_change-Keeps :
      (entry : ConfigChangeEntry) (n : RaftNode S)
      → is_leader n ≡ false
      → Keeps n (apply_config_change entry n).1
  unfolding apply_config_change adopt count_config_change reconcile_leader_progress_with_config
  apply_config_change-Keeps entry n h = ground arith

  pub note_appended-Keeps : (es : List LogEntry) (n : RaftNode S) → Keeps n (note_appended es n)
  unfolding note_appended
  note_appended-Keeps es n = ground arith

  pub activate-Keeps :
      (c : Option ConfigChangeEntry) (n : RaftNode S)
      → is_leader n ≡ false
      → Keeps n (activate c n).1
  unfolding activate
  activate-Keeps none n h = ground arith
  activate-Keeps (some entry) n h = apply_config_change-Keeps entry n h

  pub append_new-Keeps :
      (es : List LogEntry) (n : RaftNode S) → is_leader n ≡ false → Keeps n (append_new es n).1
  unfolding append_new
  append_new-Keeps [] n h = ground arith
  append_new-Keeps (e ∷ es) n h =
      let stored : RaftNode S = record n { storage = (st.append_entries n.storage (e ∷ es)).1 } in
      let noted = note_appended (e ∷ es) stored in
      let k = note_appended-Keeps (e ∷ es) stored in
      ground (arith, k, activate-Keeps (latest_config (e ∷ es)) noted)

  pub prev_matches-node : (index term : ℕ) (n : RaftNode S) → (prev_matches index term n).1 ≡ n
  unfolding prev_matches
  prev_matches-node index term n = ground arith

  pub apply_append_entries-Keeps :
      (msg : AppendEntries) (payload : List ℕ) (n : RaftNode S)
      → is_leader n ≡ false
      → Keeps n (apply_append_entries msg payload n).1
  unfolding apply_append_entries
  apply_append_entries-Keeps msg payload n h =
      let es = entry_iter payload msg.entry_count in
      let expected = saturating_add msg.prev_log_index 1 in
      let k = scan_entries-Keeps es expected n in
      bind_node (Keeps n) (scan_entries expected es) append_new n k
        λ new _. Keeps-trans k (append_new-Keeps new (scan_entries expected es n).1 (ground arith))

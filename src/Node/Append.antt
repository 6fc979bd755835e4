-- ===== src/Node/Append.antt =====
-- src/api/node/replication/handler.rs: the handlers of `AppendEntries` and of its response.
use arbitro_raft.Base.{
  ℕ, ◌-◌, min, max, Bool, true, false, not, ◌&&◌, List, [], ◌∷◌, Option, none, some, ltb, leb, ◌==◌,
  if◌then◌else◌, get_last?, saturating_add,
}
use arbitro_raft.Types.{follower, LogEntry}
use arbitro_raft.Error.{ok, err, protocol}
use arbitro_raft.Storage.{RaftStorage}
use arbitro_raft.Arena.{LogMetadataArena}
use arbitro_raft.Arena
use arbitro_raft.PeerMap.{PeerProgress, update}
use arbitro_raft.Membership.{ConfigChangeEntry, decode}
use arbitro_raft.Wire.{AppendEntries, AppendEntriesResp, append_entries_resp}
use arbitro_raft.Wire.Entries.{entry_iter}
use arbitro_raft.Node.{
  RaftNode, M, pure, fail, when, modify, get_node, on_storage, ◌>>=◌, ◌>>◌, is_leader, current_term,
  send_message, set_commit_index, step_down, storage_truncate,
}
use arbitro_raft.Node.Membership.{apply_config_change}

-- `log_metadata.append` for each entry.
unfoldable pub cache_entries : LogMetadataArena → List LogEntry → LogMetadataArena
cache_entries a [] = a
cache_entries a (e ∷ es) = cache_entries (Arena.append a e.index e.term) es

-- `entries.iter().rev().find_map(decode)`: the last control entry.
unfoldable pub latest_config : List LogEntry → Option ConfigChangeEntry
latest_config [] = none
latest_config (e ∷ es) = elim (latest_config es) [ some c ↦ some c | none ↦ decode e.payload ]

module _ {S : Type 0} where
  -- `if let Some(last) = entries.last() { self.cached_last_log = (last.index, last.term) }`.
  abbrev pub with_last : Option LogEntry → RaftNode S → RaftNode S
  with_last none n = n
  with_last (some last) n = record n { cached_last_log = (last.index, last.term) }

  -- What a successful append does to the cache of terms and to the cached tip.
  unfoldable pub note_appended : List LogEntry → RaftNode S → RaftNode S
  note_appended entries n =
      with_last (get_last? entries)
        (record n { log_metadata = cache_entries n.log_metadata entries })

  -- The leader of the term is recognized: role, hint and contact stamp.
  unfoldable pub follow : ℕ → ℕ → RaftNode S → RaftNode S
  follow leader_id now n = record n {
    soft_state = record (n.soft_state) {
      role = follower;
      is_leader = false;
      leader_id = some leader_id;
    };
    last_leader_contact = some now;
  }

  unfoldable pub commit_up_to : ℕ → RaftNode S → RaftNode S
  unfolding set_commit_index
  commit_up_to leader_commit n =
      if ltb n.soft_state.commit_index leader_commit
      then set_commit_index (min leader_commit n.cached_last_log.0) n
      else n

  unfoldable pub append_reply : ℕ → ℕ → AppendEntries → RaftNode S → AppendEntriesResp
  append_reply success match_index msg n = record {
    term = current_term n;
    match_index = match_index;
    success = success;
    pad = msg.pad;
  }

module _ {S : Type 0} ⦃st : RaftStorage S⦄ where
  -- The term of a local entry, from the cache or from the storage.
  unfoldable pub local_term : ℕ → M S (Option ℕ)
  local_term index n = elim (Arena.get_term n.log_metadata index) [
    | some t ↦ (ok (some t), n)
    | none ↦ (st.term_at n.storage index, n)
  ]

  -- The `match` on the local term: where the loop stops, the rest of the batch is to be appended,
  -- after a conflicting suffix was cut.
  unfoldable pub compare_entry :
      LogEntry → List LogEntry → M S (List LogEntry) → Option ℕ → M S (List LogEntry)
  compare_entry e es others none = pure (e ∷ es)
  compare_entry e es others (some t) =
      if t == e.term then others else (do storage_truncate e.index; pure (e ∷ es))

  -- The first loop: the entries that are to be appended.
  unfoldable pub scan_entries : ℕ → List LogEntry → M S (List LogEntry)
  scan_entries expected [] = pure []
  scan_entries expected (e ∷ es) =
      let others = scan_entries (saturating_add expected 1) es in
      if e.index == expected
      then local_term e.index >>= compare_entry e es others
      else fail (protocol "AppendEntries entries not contiguous with prev_log_index")

  -- `if let Some(entry) = latest_config { self.apply_config_change(&entry)?; }`.
  unfoldable pub activate : Option ConfigChangeEntry → M S (Unit {0})
  activate none = pure tt
  activate (some entry) = apply_config_change entry

  -- The second block: the append, and the activation of the last control entry in it.
  unfoldable pub append_new : List LogEntry → M S (Unit {0})
  append_new [] = pure tt
  append_new (e ∷ es) = do
    on_storage λ s. st.append_entries s (e ∷ es)
    modify (note_appended (e ∷ es))
    activate (latest_config (e ∷ es))

  unfoldable pub apply_append_entries : AppendEntries → List ℕ → M S (Unit {0})
  apply_append_entries msg payload = do
    new ← scan_entries (saturating_add msg.prev_log_index 1) (entry_iter payload msg.entry_count)
    append_new new

  -- Whether the log holds the entry before the batch.
  unfoldable pub prev_matches : ℕ → ℕ → M S Bool
  prev_matches prev_index prev_term n = elim (Arena.get_term n.log_metadata prev_index) [
    | some t ↦ (ok (t == prev_term), n)
    | none ↦ if prev_index == 0 then (ok true, n) else (elim (st.term_at n.storage prev_index) [
      | err e ↦ (err e, n)
      | ok (some t) ↦ (ok (t == prev_term), n)
      | ok none ↦
          (ok ((n.cached_last_log.0 == prev_index) && (n.cached_last_log.1 == prev_term)), n)
    ])
  ]

  -- What follows the check of the previous entry.
  unfoldable pub accept_entries : ℕ → AppendEntries → List ℕ → M S (Unit {0})
  accept_entries from msg payload = do
    apply_append_entries msg payload
    modify (commit_up_to msg.leader_commit)
    n ← get_node
    send_message from (append_entries_resp (append_reply 1 n.cached_last_log.0 msg n))

  unfoldable pub reject_entries : ℕ → AppendEntries → ℕ → M S (Unit {0})
  reject_entries from msg hint = do
    n ← get_node
    send_message from (append_entries_resp (append_reply 0 hint msg n))

  -- The handler behind the term check and the recognition of the leader.
  unfoldable pub check_entries : ℕ → AppendEntries → List ℕ → M S (Unit {0})
  check_entries from msg payload = do
    prev_ok ← prev_matches msg.prev_log_index msg.prev_log_term
    m ← get_node
    if prev_ok
        then accept_entries from msg payload
        else reject_entries from msg (min m.cached_last_log.0 (msg.prev_log_index - 1))

  unfoldable pub handle_append_entries : ℕ → ℕ → AppendEntries → List ℕ → M S (Unit {0})
  handle_append_entries now from msg payload n =
      if ltb msg.term (current_term n)
      then reject_entries from msg n.cached_last_log.0 n
      else (do
        when (ltb (current_term n) msg.term) (step_down msg.term)
        modify (follow msg.leader_id now)
        check_entries from msg payload)
          n

-- The progress of a peer after its response; `cap` bounds the next index.
unfoldable pub progress_after : ℕ → Bool → ℕ → PeerProgress → PeerProgress
progress_after cap true match_index p =
    let next = min (saturating_add match_index 1) cap in
    record { match_index = max p.match_index match_index; next_index = max p.next_index next }
progress_after cap false match_index p =
    if leb p.match_index match_index
    then record p {
      next_index = min (max (max (p.next_index - 1) (saturating_add match_index 1)) 1) cap;
    }
    else p

module _ {S : Type 0} ⦃st : RaftStorage S⦄ where
  unfoldable pub handle_append_entries_response : ℕ → AppendEntriesResp → M S (Unit {0})
  unfolding step_down progress_after
  handle_append_entries_response from resp n =
      if ltb (current_term n) resp.term
      then step_down resp.term n
      else if is_leader n
      then (
        ok tt,
        record n {
          peer_progress = update n.peer_progress from (
              progress_after (saturating_add n.cached_last_log.0 1) (not (resp.success == 0))
                resp.match_index);
        },
      )
      else (ok tt, n)

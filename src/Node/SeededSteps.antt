-- ===== src/Node/SeededSteps.antt =====
-- The seeded variant of the append handler respects what every handler respects.
use arbitro_raft.Base.{
  ℕ, ◌+◌, ◌≡◌, refl, false, List, [], ◌∷◌, ltb, arith, inl, inr, Bool-cases, saturating_add, length,
  map, drop, ◌/◌,
}
use arbitro_raft.Types.{is_candidate_role}
use arbitro_raft.Storage.{RaftStorage}
use arbitro_raft.Wire.{AppendEntries}
use arbitro_raft.Wire.Entries.{EntryHeader}
use arbitro_raft.Node.{
  RaftNode, M, is_leader, current_term, when, step_down, send_message, set_commit_index,
}
use arbitro_raft.Node.Rules.{bind_node}
use arbitro_raft.Node.Append.{note_appended, latest_config, reject_entries, commit_up_to, follow}
use arbitro_raft.Node.Seeded.{
  compare_header, scan_headers, append_seeded, apply_append_entries_seeded, accept_seeded,
  check_seeded, handle_append_entries_seeded, raw_items, header_entry, payload_entry, read_headers,
}
use arbitro_raft.Node.Keeps.{
  Keeps, Keeps-trans, storage_truncate-Keeps, local_term-node, note_appended-Keeps, activate-Keeps,
  prev_matches-node,
}
use arbitro_raft.Node.Monotone.{
  Monotone, Monotone-trans, raise_term-Monotone, reject_entries-Monotone, follow-Monotone,
  followed-follows,
}

module _ {S : Type 0} ⦃st : RaftStorage S⦄ where
  scan_headers-Keeps :
      (items : List (EntryHeader × List ℕ)) (entry_count expected idx : ℕ) (n : RaftNode S)
      → Keeps n (scan_headers entry_count expected idx items n).1
  unfolding scan_headers compare_header
  scan_headers-Keeps [] entry_count expected idx n = ground arith
  scan_headers-Keeps ((h, payload) ∷ items) entry_count expected idx n = ground (
    arith,
    local_term-node h.index n,
    scan_headers-Keeps items entry_count (saturating_add expected 1) (idx + 1) n,
    storage_truncate-Keeps h.index n,
  )

  append_seeded-Keeps :
      (start : ℕ) (headers payloads : List ℕ) (n : RaftNode S)
      → is_leader n ≡ false
      → Keeps n (append_seeded start headers payloads n).1
  unfolding append_seeded
  append_seeded-Keeps start headers payloads n h =
      let hs = drop start (read_headers (length headers / 24) headers) in
      let items = drop start (raw_items headers payloads) in
      let call = st.append_entries_seeded n.storage hs (map (λ item. item.1) items) in
      let stored : RaftNode S = record n { storage = call.1 } in
      let noted = note_appended (map header_entry hs) stored in
      let k = note_appended-Keeps (map header_entry hs) stored in
      ground (arith, k, activate-Keeps (latest_config (map payload_entry items)) noted)

  pub apply_append_entries_seeded-Keeps :
      (msg : AppendEntries) (headers payloads : List ℕ) (n : RaftNode S)
      → is_leader n ≡ false
      → Keeps n (apply_append_entries_seeded msg headers payloads n).1
  unfolding apply_append_entries_seeded
  apply_append_entries_seeded-Keeps msg headers payloads n h =
      let scan =
        scan_headers msg.entry_count (saturating_add msg.prev_log_index 1) 0
          (raw_items headers payloads) in
      let m = (scan n).1 in
      let k : Keeps n m = scan_headers-Keeps (raw_items headers payloads) msg.entry_count _ 0 n in
      bind_node (Keeps n) scan _ n k λ start _. elim (Bool-cases (ltb start msg.entry_count)) [
        | inr done ↦ rw (when, done) k
        | inl more ↦
            rw (when, more)
              (Keeps-trans k (append_seeded-Keeps start headers payloads m (ground (arith, k, h))))
      ]

  accept_seeded-Monotone :
      (from : ℕ) (msg : AppendEntries) (headers payloads : List ℕ) (n : RaftNode S)
      → is_leader n ≡ false
      → Monotone n (accept_seeded from msg headers payloads n).1
  unfolding accept_seeded commit_up_to send_message set_commit_index
  accept_seeded-Monotone from msg headers payloads n h =
      ground (arith, apply_append_entries_seeded-Keeps msg headers payloads n h)

  check_seeded-Monotone :
      (from : ℕ) (msg : AppendEntries) (headers payloads : List ℕ) (n : RaftNode S)
      → is_leader n ≡ false
      → Monotone n (check_seeded from msg headers payloads n).1
  unfolding check_seeded reject_entries send_message
  check_seeded-Monotone from msg headers payloads n h = ground (
    arith,
    prev_matches-node msg.prev_log_index msg.prev_log_term n,
    accept_seeded-Monotone from msg headers payloads n h,
  )

  pub handle_append_entries_seeded-Monotone :
      (now from : ℕ) (msg : AppendEntries) (headers payloads : List ℕ) (n : RaftNode S)
      → Monotone n (handle_append_entries_seeded now from msg headers payloads n).1
  unfolding handle_append_entries_seeded
  handle_append_entries_seeded-Monotone now from msg headers payloads n =
      elim (Bool-cases (ltb msg.term (current_term n))) [
        | inl old ↦
            rw (old, handle_append_entries_seeded)
              (reject_entries-Monotone from msg n.cached_last_log.0 n)
        | inr new ↦
            let raise : M S (Unit {0}) =
              when (ltb (current_term n) msg.term) (step_down msg.term) in
            let raised = (raise n).1 in
            let up = raise_term-Monotone msg.term n in
            let followed = follow msg.leader_id now raised in
            rw (new, handle_append_entries_seeded)
              (bind_node (Monotone n) raise
                (λ _ m. check_seeded from msg headers payloads (follow msg.leader_id now m)) n up
                λ _ _. Monotone-trans up (
                  Monotone-trans (follow-Monotone msg.leader_id now raised) (
                    check_seeded-Monotone from msg headers payloads followed
                      (followed-follows msg.leader_id now raised))))
      ]

  -- Behind the recognition of a leader the node does not campaign.
  pub check_seeded-follows :
      (from : ℕ) (msg : AppendEntries) (headers payloads : List ℕ) (leader now : ℕ) (n : RaftNode S)
      → is_candidate_role
          (check_seeded from msg headers payloads (follow leader now n)).1.soft_state.role
        ≡ false
  unfolding check_seeded accept_seeded reject_entries commit_up_to set_commit_index send_message
      follow
  check_seeded-follows from msg headers payloads leader now n = ground (
    arith,
    prev_matches-node msg.prev_log_index msg.prev_log_term (follow leader now n),
    apply_append_entries_seeded-Keeps msg headers payloads (follow leader now n) refl,
  )

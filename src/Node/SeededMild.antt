-- ===== src/Node/SeededMild.antt =====
-- The seeded variant of the append handler raises no fatal error of its own.
use arbitro_raft.Base.{
  ℕ, ◌+◌, ◌%◌, ◌/◌, refl, List, [], ◌∷◌, map, Option, none, some, ltb, ◌==◌, inl, inr, Bool-cases,
  saturating_add, length, drop,
}
use arbitro_raft.Error.{is_fatal, class}
use arbitro_raft.Storage.{RaftStorage}
use arbitro_raft.Wire.{AppendEntries}
use arbitro_raft.Wire.Entries.{EntryHeader}
use arbitro_raft.Node.{
  RaftNode, M, current_term, when, step_down, storage_truncate, send_message, pure, on_storage,
  ◌>>=◌,
}
use arbitro_raft.Node.Append.{local_term, prev_matches, follow, latest_config}
use arbitro_raft.Node.Seeded.{
  compare_header, scan_headers, append_seeded, apply_append_entries_seeded, accept_seeded,
  check_seeded, handle_append_entries_seeded, raw_items, payload_entry, read_headers,
}
use arbitro_raft.Node.Robust.{
  Mild, IsMild, Mild-bind, Mild-when, Mild-if, raise_term-Mild, storage_truncate-Mild,
  local_term-Mild, activate-Mild, prev_matches-Mild, reject_entries-Mild,
}

module _ {S : Type 0} ⦃st : RaftStorage S⦄ (mild : IsMild st) where
  compare_header-Mild :
      (h : EntryHeader) (idx : ℕ) (others : M S ℕ) (t : Option ℕ) (n : RaftNode S)
      → Mild (others n).0
      → Mild (compare_header h idx others t n).0
  unfolding compare_header
  compare_header-Mild h idx others none n ok_ = tt
  compare_header-Mild h idx others (some t) n ok_ = Mild-if (t == h.term) others _ n ok_ (
      Mild-bind (storage_truncate h.index) (λ _. pure idx) n (storage_truncate-Mild mild h.index n)
        (λ _. tt))

  scan_headers-Mild :
      (items : List (EntryHeader × List ℕ)) (entry_count expected idx : ℕ) (n : RaftNode S)
      → Mild (scan_headers entry_count expected idx items n).0
  unfolding scan_headers is_fatal class
  scan_headers-Mild [] entry_count expected idx n = tt
  scan_headers-Mild ((h, payload) ∷ items) entry_count expected idx n =
      let others = scan_headers entry_count (saturating_add expected 1) (idx + 1) items in
      Mild-if (h.index == expected) (local_term h.index >>= compare_header h idx others) _ n
        (Mild-bind (local_term h.index) (compare_header h idx others) n
          (local_term-Mild mild h.index n)
          λ t.
            compare_header-Mild h idx others t _
              (scan_headers-Mild items entry_count (saturating_add expected 1) (idx + 1) _))
        refl

  append_seeded-Mild :
      (start : ℕ) (headers payloads : List ℕ) (n : RaftNode S)
      → Mild (append_seeded start headers payloads n).0
  unfolding append_seeded is_fatal class
  append_seeded-Mild start headers payloads n =
      let hs = drop start (read_headers (length headers / 24) headers) in
      let items = drop start (raw_items headers payloads) in
      Mild-if (length headers % 24 == 0) _ _ n
        (Mild-bind (on_storage λ s. st.append_entries_seeded s hs (map (λ item. item.1) items)) _ n
          (mild.appends_seeded n.storage hs (map (λ item. item.1) items))
          λ _. activate-Mild mild (latest_config (map payload_entry items)) _)
        refl

  accept_seeded-Mild :
      (from : ℕ) (msg : AppendEntries) (headers payloads : List ℕ) (n : RaftNode S)
      → Mild (accept_seeded from msg headers payloads n).0
  unfolding accept_seeded apply_append_entries_seeded send_message
  accept_seeded-Mild from msg headers payloads n =
      let scan =
        scan_headers msg.entry_count (saturating_add msg.prev_log_index 1) 0
          (raw_items headers payloads) in
      Mild-bind (apply_append_entries_seeded msg headers payloads) _ n
        (Mild-bind scan _ n (scan_headers-Mild (raw_items headers payloads) msg.entry_count _ 0 n)
          λ start.
            Mild-when (ltb start msg.entry_count) (append_seeded start headers payloads) _
              (append_seeded-Mild start headers payloads _))
        λ _. tt

  check_seeded-Mild :
      (from : ℕ) (msg : AppendEntries) (headers payloads : List ℕ) (n : RaftNode S)
      → Mild (check_seeded from msg headers payloads n).0
  unfolding check_seeded
  check_seeded-Mild from msg headers payloads n =
      Mild-bind (prev_matches msg.prev_log_index msg.prev_log_term) _ n
        (prev_matches-Mild mild msg.prev_log_index msg.prev_log_term n)
        λ b.
          Mild-if b _ _ _ (accept_seeded-Mild from msg headers payloads _)
            (reject_entries-Mild mild from msg _ _)

  pub handle_append_entries_seeded-Mild :
      (now from : ℕ) (msg : AppendEntries) (headers payloads : List ℕ) (n : RaftNode S)
      → Mild (handle_append_entries_seeded now from msg headers payloads n).0
  unfolding handle_append_entries_seeded
  handle_append_entries_seeded-Mild now from msg headers payloads n =
      let raise : M S (Unit {0}) = when (ltb (current_term n) msg.term) (step_down msg.term) in
      elim (Bool-cases (ltb msg.term (current_term n))) [
        | inl old ↦
            rw (handle_append_entries_seeded, old)
              (reject_entries-Mild mild from msg n.cached_last_log.0 n)
        | inr new ↦
            rw (handle_append_entries_seeded, new)
              (Mild-bind raise
                (λ _ m. check_seeded from msg headers payloads (follow msg.leader_id now m)) n
                (raise_term-Mild mild msg.term n)
                λ _.
                  check_seeded-Mild from msg headers payloads
                    (follow msg.leader_id now (raise n).1))
      ]

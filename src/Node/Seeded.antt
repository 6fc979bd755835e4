-- ===== src/Node/Seeded.antt =====
-- src/api/node/replication/handler.rs and `AppendEntriesRawIter` of src/protocol/message.rs: the
-- variant of the append handler whose frame has all headers before all payloads.
use arbitro_raft.Base.{
  ℕ, zero, suc, ◌-◌, ◌/◌, ◌%◌, ◌+◌, min, List, [], ◌∷◌, map, Option, none, some, ltb, ◌==◌,
  if◌then◌else◌, length, take, drop, saturating_add,
}
use arbitro_raft.Types.{LogEntry}
use arbitro_raft.Error.{protocol}
use arbitro_raft.Storage.{RaftStorage}
use arbitro_raft.Wire.{AppendEntries, append_entries_resp}
use arbitro_raft.Wire.Entries.{EntryHeader, read_header}
use arbitro_raft.Node.{
  M, pure, fail, when, modify, get_node, on_storage, ◌>>=◌, ◌>>◌, current_term, send_message,
  step_down, storage_truncate,
}
use arbitro_raft.Node.Append.{
  local_term, note_appended, activate, latest_config, prev_matches, reject_entries, commit_up_to,
  append_reply, follow,
}

-- The items of the iterator over contiguous payloads, for at most `count` headers.
unfoldable pub raw_iter : ℕ → List ℕ → List ℕ → List (EntryHeader × List ℕ)
raw_iter zero headers payloads = []
raw_iter (suc count) headers payloads = elim (read_header headers) [
  | none ↦ []
  | some (h, rest) ↦
      let others = raw_iter count rest (drop h.payload_len payloads) in
      if ltb (length payloads) h.payload_len then [] else (h, take h.payload_len payloads) ∷ others
]

-- A header takes 24 bytes.
unfoldable pub raw_items : List ℕ → List ℕ → List (EntryHeader × List ℕ)
unfolding raw_iter
raw_items headers payloads = raw_iter (length headers / 24) headers payloads

-- `Ref::<[EntryHeader]>::from_bytes`: the headers alone, if their bytes are a multiple of 24.
unfoldable pub read_headers : ℕ → List ℕ → List EntryHeader
read_headers zero bytes = []
read_headers (suc count) bytes = elim (read_header bytes) [
  | none ↦ []
  | some (h, rest) ↦ h ∷ read_headers count rest
]

abbrev pub header_entry : EntryHeader → LogEntry
header_entry h = record { term = h.term; index = h.index; payload = [] }

abbrev pub payload_entry : EntryHeader × List ℕ → LogEntry
payload_entry (h, payload) = record { term = h.term; index = h.index; payload = payload }

module _ {S : Type 0} ⦃st : RaftStorage S⦄ where
  -- The `match` on the local term: `idx` is where the append starts.
  unfoldable pub compare_header : EntryHeader → ℕ → M S ℕ → Option ℕ → M S ℕ
  compare_header h idx others none = pure idx
  compare_header h idx others (some t) =
      if t == h.term then others else (storage_truncate h.index >> pure idx)

  -- The first loop; `entry_count` is the result where every entry is there already.
  unfoldable pub scan_headers : ℕ → ℕ → ℕ → List (EntryHeader × List ℕ) → M S ℕ
  scan_headers entry_count expected idx [] = pure entry_count
  scan_headers entry_count expected idx ((h, payload) ∷ items) =
      let others = scan_headers entry_count (saturating_add expected 1) (idx + 1) items in
      if h.index == expected
      then local_term h.index >>= compare_header h idx others
      else fail (protocol "seeded AppendEntries entries not contiguous with prev_log_index")

  -- The second block: the append from `start` on, and the activation of the last control entry.
  unfoldable pub append_seeded : ℕ → List ℕ → List ℕ → M S (Unit {0})
  unfolding raw_items read_headers
  append_seeded start headers payloads =
      let new_headers = drop start (read_headers (length headers / 24) headers) in
      let new_items = drop start (raw_items headers payloads) in
      if length headers % 24 == 0
      then (do
        on_storage λ s. st.append_entries_seeded s new_headers (map (λ item. item.1) new_items)
        modify (note_appended (map header_entry new_headers))
        activate (latest_config (map payload_entry new_items)))
      else fail (protocol "header alignment in seeded batch")

  unfoldable pub apply_append_entries_seeded : AppendEntries → List ℕ → List ℕ → M S (Unit {0})
  unfolding scan_headers append_seeded raw_items
  apply_append_entries_seeded msg headers payloads = do
    start ←
        scan_headers msg.entry_count (saturating_add msg.prev_log_index 1) 0
          (raw_items headers payloads)
    when (ltb start msg.entry_count) (append_seeded start headers payloads)

  -- What follows the check of the previous entry.
  unfoldable pub accept_seeded : ℕ → AppendEntries → List ℕ → List ℕ → M S (Unit {0})
  accept_seeded from msg headers payloads = do
    apply_append_entries_seeded msg headers payloads
    modify (commit_up_to msg.leader_commit)
    n ← get_node
    send_message from (append_entries_resp (append_reply 1 n.cached_last_log.0 msg n))

  unfoldable pub check_seeded : ℕ → AppendEntries → List ℕ → List ℕ → M S (Unit {0})
  check_seeded from msg headers payloads = do
    prev_ok ← prev_matches msg.prev_log_index msg.prev_log_term
    m ← get_node
    if prev_ok
        then accept_seeded from msg headers payloads
        else reject_entries from msg (min m.cached_last_log.0 (msg.prev_log_index - 1))

  unfoldable pub handle_append_entries_seeded :
      ℕ → ℕ → AppendEntries → List ℕ → List ℕ → M S (Unit {0})
  handle_append_entries_seeded now from msg headers payloads n =
      if ltb msg.term (current_term n)
      then reject_entries from msg n.cached_last_log.0 n
      else (do
        when (ltb (current_term n) msg.term) (step_down msg.term)
        modify (follow msg.leader_id now)
        check_seeded from msg headers payloads)
          n

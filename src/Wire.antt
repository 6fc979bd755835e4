-- ===== src/Wire.antt =====
-- src/protocol/codec/wire.rs and src/protocol/message.rs: the messages between nodes. The padding
-- bytes that carry nothing are left out; `pad` is the reserved word with the read-index probe.
pub mod Bytes
pub mod Entries
pub mod Fields
pub mod Bodies
pub mod Encode
pub mod Decode
pub mod RoundTrip
use arbitro_raft.Base.{ℕ, List, Option, some, none}
use arbitro_raft.Types.{LogEntry}

pub record RequestVote : Type 0 where
  pub term : ℕ
  pub candidate_id : ℕ
  pub last_log_index : ℕ
  pub last_log_term : ℕ

pub record RequestVoteResp : Type 0 where
  pub term : ℕ
  pub vote_granted : ℕ

pub record AppendEntries : Type 0 where
  pub term : ℕ
  pub leader_id : ℕ
  pub prev_log_index : ℕ
  pub prev_log_term : ℕ
  pub leader_commit : ℕ
  pub entry_count : ℕ
  pub pad : ℕ

-- `pad` holds the first four padding bytes as a little-endian number; the other three are 0.
pub record AppendEntriesResp : Type 0 where
  pub term : ℕ
  pub match_index : ℕ
  pub success : ℕ
  pub pad : ℕ

pub record InstallSnapshot : Type 0 where
  pub term : ℕ
  pub leader_id : ℕ
  pub last_included_index : ℕ
  pub last_included_term : ℕ
  pub offset : ℕ
  pub chunk_len : ℕ
  pub is_done : ℕ

pub record InstallSnapshotResp : Type 0 where
  pub term : ℕ
  pub next_offset : ℕ
  pub accepted : ℕ

pub record TimeoutNow : Type 0 where
  pub term : ℕ
  pub leader_id : ℕ

pub data RaftMessage : Type 0 where
  request_vote pre_vote : RequestVote → RaftMessage
  request_vote_resp pre_vote_resp : RequestVoteResp → RaftMessage
  append_entries : AppendEntries → List ℕ → RaftMessage
  append_entries_vectored : AppendEntries → List LogEntry → RaftMessage
  append_entries_seeded : AppendEntries → List ℕ → List ℕ → RaftMessage
  append_entries_seeded_vectored : AppendEntries → List ℕ → List (List ℕ) → RaftMessage
  append_entries_resp : AppendEntriesResp → RaftMessage
  install_snapshot : InstallSnapshot → List ℕ → RaftMessage
  install_snapshot_resp : InstallSnapshotResp → RaftMessage
  timeout_now : TimeoutNow → RaftMessage
  custom custom_response : List ℕ → RaftMessage

pub record InboundRaftMessage : Type 0 where
  pub from : ℕ
  pub group_id : ℕ
  pub message : RaftMessage

-- `message_term` of src/api/node/mod.rs: the term that a message carries.
unfoldable pub message_term : RaftMessage → Option ℕ
message_term (request_vote m) = some m.term
message_term (pre_vote m) = some m.term
message_term (request_vote_resp m) = some m.term
message_term (pre_vote_resp m) = some m.term
message_term (append_entries m payload) = some m.term
message_term (append_entries_vectored m entries) = some m.term
message_term (append_entries_seeded m headers payloads) = some m.term
message_term (append_entries_seeded_vectored m headers payloads) = some m.term
message_term (append_entries_resp m) = some m.term
message_term (install_snapshot m payload) = some m.term
message_term (install_snapshot_resp m) = some m.term
message_term (timeout_now m) = some m.term
message_term (custom payload) = none
message_term (custom_response payload) = none

-- ===== src/Storage.antt =====
-- src/traits/storage.rs: the log and the stable state under a node, which the user of the engine
-- supplies. A call returns its result and the storage after it, also when it fails; a read returns
-- its result alone. The payload buffers of the source are the storage's own matter.
use arbitro_raft.Base.{ℕ, List, Option}
use arbitro_raft.Types.{HardState, SnapshotMeta, LogEntry}
use arbitro_raft.Error.{Result}
use arbitro_raft.Wire.Entries.{EntryHeader}

pub record RaftStorage (S : Type 0) : Type 0 where
  pub load_hard_state : S → Result HardState
  pub save_hard_state : S → HardState → Result (Unit {0}) × S
  pub append_entries : S → List LogEntry → Result (Unit {0}) × S
  pub append_entries_seeded : S → List EntryHeader → List (List ℕ) → Result (Unit {0}) × S
  pub read_entries : S → ℕ → ℕ → Result (List LogEntry)
  pub entry_at : S → ℕ → Result (Option LogEntry)
  pub term_at : S → ℕ → Result (Option ℕ)
  pub last_log_position : S → Result (ℕ × ℕ)
  pub truncate_suffix : S → ℕ → Result (Unit {0}) × S
  pub truncate_before : S → ℕ → Result (Unit {0}) × S
  pub save_snapshot : S → SnapshotMeta → List ℕ → Result (Unit {0}) × S
  pub load_snapshot : S → Result (Option (SnapshotMeta × List ℕ))
  pub load_snapshot_meta : S → Result (Option SnapshotMeta)

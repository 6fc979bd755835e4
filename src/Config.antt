-- ===== src/Config.antt =====
-- src/config: the configuration of a node. Addresses are not modelled: a bootstrap peer is its id.
use arbitro_raft.Base.{ℕ, List}

pub record TimingConfig : Type 0 where
  pub heartbeat_ms : ℕ
  pub election_min_ms : ℕ
  pub election_max_ms : ℕ

pub record LimitsConfig : Type 0 where
  pub append_batch_bytes : ℕ
  pub append_batch_entries : ℕ
  pub snapshot_chunk_bytes : ℕ
  pub max_inflight_per_peer : ℕ
  pub max_snapshot_bytes : ℕ
  pub snapshot_stall_timeout_ms : ℕ
  pub snapshot_max_attempts_per_peer : ℕ
  pub snapshot_attempt_cooldown_ms : ℕ
  pub compaction_threshold_entries : ℕ
  pub compaction_threshold_bytes : ℕ
  pub compaction_min_retain : ℕ
  pub inbound_decode_error_jail_threshold : ℕ
  pub inbound_decode_error_window_ms : ℕ
  pub inbound_jail_cooldown_ms : ℕ
  pub client_mailbox_capacity : ℕ

pub record NodeConfig : Type 0 where
  pub cluster_id : ℕ
  pub node_id : ℕ
  pub peers : List ℕ
  pub learners : List ℕ
  pub bootstrap_peers : List ℕ
  pub timing : TimingConfig
  pub limits : LimitsConfig

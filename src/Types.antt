-- ===== src/Types.antt =====
-- The plain data of the engine: src/types/ids.rs, src/state/hard_state.rs, src/entry/log_entry.rs.
-- A `PeerId`, `Term` or `LogIndex` is the number that its newtype wraps, an instant the number of
-- milliseconds on a monotonic clock.
use arbitro_raft.Base.{ℕ, Bool, true, false, List, Option}

pub data Role : Type 0 where
  follower candidate leader : Role

pub record HardState : Type 0 where
  pub current_term : ℕ
  pub voted_for : Option ℕ

pub record SoftState : Type 0 where
  pub leader_id : Option ℕ
  pub is_leader : Bool
  pub role : Role
  pub commit_index : ℕ

pub record SnapshotMeta : Type 0 where
  pub last_included_index : ℕ
  pub last_included_term : ℕ

-- A payload is its bytes.
pub record LogEntry : Type 0 where
  pub term : ℕ
  pub index : ℕ
  pub payload : List ℕ

-- `role == Role::Leader`.
abbrev pub is_leader_role : Role → Bool
is_leader_role leader = true
is_leader_role _ = false

-- `role == Role::Follower`.
abbrev pub is_follower_role : Role → Bool
is_follower_role follower = true
is_follower_role _ = false

-- `role == Role::Candidate`.
abbrev pub is_candidate_role : Role → Bool
is_candidate_role candidate = true
is_candidate_role _ = false

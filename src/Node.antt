-- ===== src/Node.antt =====
-- src/api/node/mod.rs: the state of a node and its small methods. A method of the source is a
-- function from the state to its result and the state after it, also where it fails: what was
-- written before the error stays written. The scratch buffers are not modelled. What the transport
-- is asked to send is appended to `outbox`, and the dispatches that a step-down aborts to `aborted`.
pub mod Membership
pub mod Append
pub mod Seeded
pub mod Commit
pub mod Compaction
pub mod Compacted
pub mod Keeps
pub mod Rules
pub mod Election
pub mod Monotone
pub mod Vote
pub mod Advance
pub mod Progress
pub mod Tail
pub mod Config
pub mod Removal
pub mod Log
pub mod Scan
pub mod Logged
pub mod Success
pub mod Accept
pub mod Snapshot
pub mod Install
pub mod SnapshotSteps
pub mod Buffers
pub mod Transfers
pub mod Transfer
pub mod Custom
pub mod Inbound
pub mod Campaign
pub mod Received
pub mod SeededSteps
pub mod Stays
pub mod Tally
pub mod Robust
pub mod Lease
pub mod Tolerance
pub mod SeededMild
pub mod Ballots
pub mod CampaignSteps
pub mod Elected
pub mod Victory
pub mod Heartbeat
pub mod Beats
pub mod Rounds
use arbitro_raft.Base.{
  ℕ, ◌+◌, Bool, true, false, not, ◌&&◌, List, [], ◌∷◌, ◌++◌, Option, none, some, ltb, leb, ◌==◌,
  if◌then◌else◌, contains, saturating_add,
}
use arbitro_raft.Types.{
  Role, follower, leader, HardState, SoftState, LogEntry, is_leader_role, is_follower_role,
}
use arbitro_raft.Error.{RaftError, not_leader, Result, ok, err}
use arbitro_raft.Config.{NodeConfig}
use arbitro_raft.Storage.{RaftStorage}
use arbitro_raft.Wire.{RaftMessage}
use arbitro_raft.PeerMap.{PeerMap, PeerProgress}
use arbitro_raft.Arena.{LogMetadataArena}
use arbitro_raft.Arena
use arbitro_raft.Types.{SnapshotMeta}

-- The counters that the modelled code increments.
pub record RaftMetrics : Type 0 where
  pub elections_started : ℕ
  pub elections_won : ℕ
  pub step_downs : ℕ
  pub config_changes_applied : ℕ
  pub frames_dropped_nonfatal : ℕ
  pub snapshots_evicted : ℕ
  pub snapshot_installs_refused : ℕ
  pub log_compactions : ℕ

pub record PendingSnapshot : Type 0 where
  pub meta : SnapshotMeta
  pub bytes : List ℕ
  pub deadline : ℕ

pub record SnapshotAttempts : Type 0 where
  pub attempts : ℕ
  pub cooldown_until : Option ℕ

pub record PendingTransfer : Type 0 where
  pub target : ℕ
  pub deadline : ℕ

pub record RaftNode (S : Type 0) : Type 0 where
  pub config : NodeConfig
  pub storage : S
  pub hard_state : HardState
  pub soft_state : SoftState
  pub pending_custom : List ℕ
  pub peer_progress : PeerMap PeerProgress
  pub joint_peers : Option (List ℕ × List ℕ)
  pub pending_snapshots : PeerMap PendingSnapshot
  pub snapshot_attempts : PeerMap SnapshotAttempts
  pub log_metadata : LogMetadataArena
  pub last_voter_contact : PeerMap ℕ
  pub cached_last_log : ℕ × ℕ
  pub snapshot_boundary : ℕ × ℕ
  pub commit_index_pub : ℕ
  pub metrics : RaftMetrics
  pub last_applied : ℕ
  pub compaction_debt_entries : ℕ
  pub compaction_debt_bytes : ℕ
  pub last_leader_contact : Option ℕ
  pub pending_transfer : Option PendingTransfer
  pub forced_campaign_term : Option ℕ
  pub read_probe_seq : ℕ
  pub outbox : List (ℕ × RaftMessage)
  pub aborted : List ℕ

-- A method on a node over the storage `S`.
abbrev pub M : Type 0 → Type 0 → Type 0
M S A = RaftNode S → Result A × RaftNode S

abbrev pub pure : {S A : Type 0} → A → M S A
pure a n = (ok a, n)

abbrev pub fail : {S A : Type 0} → RaftError → M S A
fail e n = (err e, n)

abbrev pub bind_result :
    {S A B : Type 0} → (A → M S B) → Result A → RaftNode S → Result B × RaftNode S
bind_result f (ok a) n = f a n
bind_result f (err e) n = (err e, n)

infixl 5 ◌>>=◌ ◌>>◌
abbrev pub ◌>>=◌ : {S A B : Type 0} → M S A → (A → M S B) → M S B
◌>>=◌ m f n = bind_result f (m n).0 (m n).1

abbrev pub ◌>>◌ : {S B : Type 0} → M S (Unit {0}) → M S B → M S B
m >> k = m >>= λ _. k

abbrev pub modify : {S : Type 0} → (RaftNode S → RaftNode S) → M S (Unit {0})
modify f n = (ok tt, f n)

-- A statement under `if` with no `else`.
abbrev pub when : {S : Type 0} → Bool → M S (Unit {0}) → M S (Unit {0})
when true m = m
when false m = pure tt

-- The state itself, to compute with.
abbrev pub get_node : {S : Type 0} → M S (RaftNode S)
get_node n = (ok n, n)

-- A call that writes to the storage.
abbrev pub on_storage : {S A : Type 0} → (S → Result A × S) → M S A
on_storage call n = ((call n.storage).0, record n { storage = (call n.storage).1 })

-- A call that reads from it.
abbrev pub from_storage : {S A : Type 0} → (S → Result A) → M S A
from_storage call n = (call n.storage, n)

abbrev pub is_leader : {S : Type 0} → RaftNode S → Bool
is_leader n = is_leader_role n.soft_state.role

abbrev pub current_term : {S : Type 0} → RaftNode S → ℕ
current_term n = n.hard_state.current_term

abbrev pub is_voter : {S : Type 0} → RaftNode S → ℕ → Bool
is_voter n peer = contains n.config.peers peer

abbrev pub not_leader_error : {S : Type 0} → RaftNode S → RaftError
not_leader_error n = not_leader n.soft_state.leader_id

-- The one write path of the commit index: the field and the mirror that observers read.
unfoldable pub set_commit_index : {S : Type 0} → ℕ → RaftNode S → RaftNode S
set_commit_index idx n = record n {
  soft_state = record (n.soft_state) { commit_index = idx };
  commit_index_pub = idx;
}

unfoldable pub send_message : {S : Type 0} → ℕ → RaftMessage → M S (Unit {0})
send_message peer msg = modify λ n. record n { outbox = n.outbox ++ (peer, msg) ∷ [] }

unfoldable pub demote_to_follower_keep_term : {S : Type 0} → RaftNode S → RaftNode S
demote_to_follower_keep_term n =
    let m = n.metrics in
    record n {
      metrics =
          if is_follower_role n.soft_state.role
          then m
          else record m { step_downs = m.step_downs + 1 };
      soft_state = record (n.soft_state) { role = follower; is_leader = false; leader_id = none };
      peer_progress = [];
      pending_snapshots = [];
      snapshot_attempts = [];
      aborted = n.aborted ++ n.pending_custom;
      pending_custom = [];
      last_voter_contact = [];
      pending_transfer = none;
    }

module _ {S : Type 0} ⦃st : RaftStorage S⦄ where
  unfoldable pub step_down : ℕ → M S (Unit {0})
  unfolding demote_to_follower_keep_term
  step_down new_term = do
    modify λ n. record n { hard_state = record { current_term = new_term; voted_for = none } }
    n ← get_node
    on_storage λ s. st.save_hard_state s n.hard_state
    modify demote_to_follower_keep_term

  unfoldable pub storage_truncate : ℕ → M S (Unit {0})
  storage_truncate from = do
    on_storage λ s. st.truncate_suffix s from
    modify λ n. record n { log_metadata = Arena.truncate_suffix n.log_metadata from }
    position ← from_storage st.last_log_position
    modify λ n. record n { cached_last_log = position }

-- ===== src/Abuse.antt =====
-- src/api/arbitro_raft/abuse.rs: the guard that jails a peer which floods the run loop with frames
-- that cannot be decoded. Instants and durations are milliseconds; `duration_since` stops at 0.
pub mod Bounds
pub mod Jail
use arbitro_raft.Base.{
  ℕ, ◌+◌, ◌-◌, Bool, true, false, List, Option, none, some, ltb, leb, ◌==◌, if◌then◌else◌, contains,
  u64_max, saturating_add32,
}
use arbitro_raft.Config.{LimitsConfig}
use arbitro_raft.PeerMap.{PeerMap, get, insert, remove}

-- The bucket of every sender that is no member.
abbrev pub unknown_sender_key : ℕ
unknown_sender_key = u64_max

pub record PeerAbuseState : Type 0 where
  pub window_start : ℕ
  pub errors_in_window : ℕ
  pub jailed_until : Option ℕ

pub record InboundAbuseGuard : Type 0 where
  pub peers : PeerMap PeerAbuseState

unfoldable pub key_for : Option ℕ → List ℕ → ℕ
key_for none members = unknown_sender_key
key_for (some id) members = if contains members id then id else unknown_sender_key

-- Whether the sender is jailed; a jail that has expired is cleared.
unfoldable pub is_jailed : ℕ → ℕ → InboundAbuseGuard → Bool × InboundAbuseGuard
is_jailed key now g = elim (get g.peers key) [
  | none ↦ (false, g)
  | some state ↦ elim state.jailed_until [
    | none ↦ (false, g)
    | some until ↦
        if ltb now until then (true, g) else (false, record { peers = remove g.peers key })
  ]
]

-- `entry(key).or_insert(...)`.
unfoldable pub entry_or_fresh : Option PeerAbuseState → ℕ → PeerAbuseState
entry_or_fresh (some state) now = state
entry_or_fresh none now = record { window_start = now; errors_in_window = 0; jailed_until = none }

-- The window that has passed is started anew.
unfoldable pub restart_window : ℕ → ℕ → PeerAbuseState → PeerAbuseState
restart_window now window state =
    if ltb window (now - state.window_start)
    then record state { window_start = now; errors_in_window = 0 }
    else state

unfoldable pub count_error : PeerAbuseState → PeerAbuseState
count_error state = record state { errors_in_window = saturating_add32 state.errors_in_window 1 }

-- The state of the sender after one more error.
unfoldable pub counted_state : ℕ → ℕ → LimitsConfig → InboundAbuseGuard → PeerAbuseState
counted_state key now limits g = count_error (
    restart_window now limits.inbound_decode_error_window_ms (entry_or_fresh (get g.peers key) now))

unfoldable pub record_decode_error :
    ℕ → ℕ → LimitsConfig → InboundAbuseGuard → Bool × InboundAbuseGuard
record_decode_error key now limits g =
    let state = counted_state key now limits g in
    if limits.inbound_decode_error_jail_threshold == 0
    then (false, g)
    else if leb limits.inbound_decode_error_jail_threshold state.errors_in_window
    then (
      true,
      record {
        peers =
            insert g.peers key
              (record state { jailed_until = some (now + limits.inbound_jail_cooldown_ms) });
      },
    )
    else (false, record { peers = insert g.peers key state })

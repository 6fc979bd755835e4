-- ===== src/Dispatch/Spec.antt =====
-- src/dispatch/spec.rs: scopes, routes, options and the identifiers of transactions. The codecs of a
-- specification are the user's functions and stay out; its counter is passed along.
use arbitro_raft.Base.{ℕ, ◌+◌, ◌*◌, ◌%◌, ◌^◌, min, max, Bool, true, false, not}
use arbitro_raft.Dispatch.{DispatchAckOptions, DispatchFailOptions, quorum, allow_failures}

pub data DispatchScope : Type 0 where
  scope_all scope_others scope_followers scope_leader scope_local_only : DispatchScope

pub data DispatchNodeRole : Type 0 where
  leader_role follower_role : DispatchNodeRole

pub record DispatchRoute : Type 0 where
  pub role : DispatchNodeRole
  pub is_origin : Bool

abbrev is_follower_route : DispatchNodeRole → Bool
is_follower_route follower_role = true
is_follower_route leader_role = false

unfoldable pub allows : DispatchScope → DispatchRoute → Bool
allows scope_all route = true
allows scope_others route = not route.is_origin
allows scope_followers route = is_follower_route route.role
allows scope_leader route = not (is_follower_route route.role)
allows scope_local_only route = route.is_origin

pub record DispatchOptions : Type 0 where
  pub scope : DispatchScope
  pub ack : DispatchAckOptions
  pub fail : DispatchFailOptions
  pub timeout : ℕ
  pub trace : Bool

-- The timeout is in milliseconds.
unfoldable pub default_options : DispatchOptions
default_options = record {
  scope = scope_all;
  ack = record { policy = quorum; count = 1; percent = 100 };
  fail = record { policy = allow_failures; count = 0; percent = 0 };
  timeout = 2000;
  trace = false;
}

unfoldable pub with_ack_count : ℕ → DispatchOptions → DispatchOptions
with_ack_count count o = record o { ack = record (o.ack) { count = max count 1 } }

-- `clamp(1, 100)`.
unfoldable pub with_ack_percent : ℕ → DispatchOptions → DispatchOptions
with_ack_percent percent o = record o { ack = record (o.ack) { percent = min (max percent 1) 100 } }

unfoldable pub with_fail_count : ℕ → DispatchOptions → DispatchOptions
with_fail_count count o = record o { fail = record (o.fail) { count = count } }

unfoldable pub with_fail_percent : ℕ → DispatchOptions → DispatchOptions
with_fail_percent percent o = record o { fail = record (o.fail) { percent = min percent 100 } }

-- The identifier that a command draws, and the counter after `fetch_add`, which wraps.
unfoldable pub next_tx_id : ℕ → ℕ → ℕ × ℕ
next_tx_id command counter = (command * 2 ^ 56 + counter % 2 ^ 56, (counter + 1) % 2 ^ 64)

-- ===== src/Abuse/Jail.antt =====
-- The jail: when an error puts its sender there, how long it stays, and how it comes out.
use arbitro_raft.Base.{ℕ, suc, ◌+◌, ◌≤◌, ◌<◌, ◌≡◌, refl, true, some, ltb, leb, arith, u32_max}
use arbitro_raft.Config.{LimitsConfig}
use arbitro_raft.PeerMap.{get}
use arbitro_raft.PeerMap.Laws.{get-insert}
use arbitro_raft.Abuse.{
  InboundAbuseGuard, PeerAbuseState, is_jailed, record_decode_error, counted_state, entry_or_fresh,
  restart_window, count_error,
}

-- What the guard finds of the sender after an error that jailed it.
recorded-get :
    (key now : ℕ) (limits : LimitsConfig) (g : InboundAbuseGuard)
    → (record_decode_error key now limits g).0 ≡ true
    → (state : PeerAbuseState) × (get (record_decode_error key now limits g).1.peers key
        ≡ some state)
      × (state.jailed_until ≡ some (now + limits.inbound_jail_cooldown_ms))
unfolding record_decode_error
recorded-get key now limits g h =
    let jailed : PeerAbuseState = record (counted_state key now limits g) {
      jailed_until = some (now + limits.inbound_jail_cooldown_ms);
    } in
    (jailed, ground (arith, h, get-insert g.peers key key jailed), refl)

-- After an error that reports a jail, a query at any instant says that its sender is jailed exactly
-- when the instant is before the end of the cooldown.
pub is_jailed-record_decode_error :
    (key now later : ℕ) (limits : LimitsConfig) (g : InboundAbuseGuard)
    → (record_decode_error key now limits g).0 ≡ true
    → (is_jailed key later (record_decode_error key now limits g).1).0
      ≡ ltb later (now + limits.inbound_jail_cooldown_ms)
unfolding is_jailed
is_jailed-record_decode_error key now later limits g h =
    let (state, at, until) = recorded-get key now limits g h in ground (arith, at, until)

-- With jailing enabled, an error of a sender whose window still runs and whose counter is not full
-- reports a jail exactly when the count with it has reached the threshold.
pub record_decode_error-threshold :
    (key now : ℕ) (limits : LimitsConfig) (g : InboundAbuseGuard) (state : PeerAbuseState)
    → get g.peers key ≡ some state
    → now ≤ state.window_start + limits.inbound_decode_error_window_ms
    → state.errors_in_window < u32_max
    → 0 < limits.inbound_decode_error_jail_threshold
    → (record_decode_error key now limits g).0
      ≡ leb limits.inbound_decode_error_jail_threshold (suc state.errors_in_window)
unfolding record_decode_error counted_state entry_or_fresh restart_window count_error
record_decode_error-threshold key now limits g state e w c t = rw e (ground (arith, w, c, t))

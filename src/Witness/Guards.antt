-- ===== src/Witness/Guards.antt =====
-- The theorems on the abuse guard and on the check of a configuration, at concrete inputs.
use arbitro_raft.Base.{ℕ, ◌∷◌, arith, ◌≤◌, ◌≡◌, ◌↔◌, refl, List, [], some, length}
use arbitro_raft.Error.{ok}
use arbitro_raft.Config.{LimitsConfig}
use arbitro_raft.PeerMap.{keys, get, insert}
use arbitro_raft.Abuse.{
  record_decode_error, counted_state, count_error, restart_window, entry_or_fresh, key_for,
  is_jailed,
}
use arbitro_raft.Quorum.Overlap.{IsSubset}
use arbitro_raft.Abuse.Bounds.{GuardCall, asks, records, guard_run, length-guard_run}
use arbitro_raft.Validation.{validate_node_config}
use arbitro_raft.Validation.Sound.{IsSound, validate_node_config-IsSound}
use arbitro_raft.Witness.Memory.{config}

-- Two errors jail.
abbrev limits : LimitsConfig
limits = record ((config 1).limits) { inbound_decode_error_jail_threshold = 2 }

abbrev before_change : List ℕ
before_change = 1 ∷ 2 ∷ 3 ∷ []

abbrev after_change : List ℕ
after_change = 1 ∷ 4 ∷ 5 ∷ []

-- Errors of members before and after a change of two of the three.
abbrev frames : List GuardCall
frames =
    records (some 1) before_change 10
    ∷ records (some 2) before_change 11
    ∷ records (some 3) before_change 12
    ∷ records (some 4) after_change 13
    ∷ records (some 5) after_change 14
    ∷ asks (some 77) after_change 15
    ∷ []

members_before : IsSubset before_change (1 ∷ 2 ∷ 3 ∷ 4 ∷ 5 ∷ [])
members_before x h = ground (arith, h)

members_after : IsSubset after_change (1 ∷ 2 ∷ 3 ∷ 4 ∷ 5 ∷ [])
members_after x h = ground (arith, h)

length-guard_run_example : length (keys (guard_run limits (record { peers = [] }) frames).peers) ≤ 6
length-guard_run_example = length-guard_run (1 ∷ 2 ∷ 3 ∷ 4 ∷ 5 ∷ []) limits frames (
  members_before,
  (members_before, (members_before, (members_after, (members_after, (members_after, tt))))),
)

-- The entries of former members stay: five entries, for three members.
former_members_test : length (keys (guard_run limits (record { peers = [] }) frames).peers) ≡ 5
unfolding keys record_decode_error counted_state count_error restart_window entry_or_fresh key_for
    is_jailed get insert
former_members_test = refl

validate_node_config-IsSound_example :
    (validate_node_config (config 1) ≡ ok tt) ↔ IsSound (config 1)
validate_node_config-IsSound_example = validate_node_config-IsSound (config 1)

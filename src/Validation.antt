-- ===== src/Validation.antt =====
-- src/validation/invariants.rs: the check of a configuration before a node starts. A `HashSet` that
-- is filled in a loop is the list of what was put in.
pub mod Sound
use arbitro_raft.Base.{
  ℕ, Bool, true, false, not, ◌&&◌, List, [], ◌∷◌, leb, ◌==◌, if◌then◌else◌, contains,
}
use arbitro_raft.Error.{Result, ok, err, invalid_config}
use arbitro_raft.Config.{NodeConfig, TimingConfig, LimitsConfig}

abbrev pub is_empty_list : List ℕ → Bool
is_empty_list [] = true
is_empty_list (_ ∷ _) = false

-- The loop over the voters.
unfoldable pub check_peers : List ℕ → List ℕ → Result (Unit {0})
check_peers seen [] = ok tt
check_peers seen (p ∷ ps) =
    let rest = check_peers (p ∷ seen) ps in
    if contains seen p then err (invalid_config "peers must not contain duplicates") else rest

-- The loop over the learners.
unfoldable pub check_learners : List ℕ → List ℕ → List ℕ → Result (Unit {0})
check_learners peers seen [] = ok tt
check_learners peers seen (l ∷ ls) =
    let rest = check_learners peers (l ∷ seen) ls in
    if contains seen l
    then err (invalid_config "learners must not contain duplicates")
    else if contains peers l
    then err (invalid_config "learners must be disjoint from peers")
    else rest

abbrev pub then_check : Result (Unit {0}) → Result (Unit {0}) → Result (Unit {0})
then_check (ok _) next = next
then_check (err e) next = err e

unfoldable pub check_timing : NodeConfig → Result (Unit {0})
check_timing cfg =
    if cfg.timing.heartbeat_ms == 0
    then err (invalid_config "heartbeat_ms must be > 0")
    else if leb cfg.timing.election_max_ms cfg.timing.election_min_ms
    then err (invalid_config "election_min_ms must be < election_max_ms")
    else if leb cfg.timing.election_min_ms cfg.timing.heartbeat_ms
    then err (
        invalid_config
          "heartbeat_ms must be < election_min_ms (recommended: heartbeat_ms * 3 <= election_min_ms)")
    else if cfg.limits.snapshot_chunk_bytes == 0
    then err (invalid_config "snapshot_chunk_bytes must be > 0")
    else ok tt

unfoldable pub validate_node_config : NodeConfig → Result (Unit {0})
unfolding check_peers check_learners check_timing
validate_node_config cfg =
    if is_empty_list cfg.peers
    then err (invalid_config "peers must not be empty")
    else if not (contains cfg.peers cfg.node_id) && not (contains cfg.learners cfg.node_id)
    then err (invalid_config "node_id must appear in peers (voter) or learners (non-voting member)")
    else if is_empty_list cfg.bootstrap_peers
    then err (invalid_config "bootstrap_peers must not be empty")
    else if not (contains cfg.bootstrap_peers cfg.node_id)
    then err (invalid_config "bootstrap_peers must include node_id for v1 bootstrap")
    else then_check (check_peers [] cfg.peers)
        (then_check (check_learners cfg.peers [] cfg.learners) (check_timing cfg))

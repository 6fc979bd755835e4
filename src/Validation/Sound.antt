-- ===== src/Validation/Sound.antt =====
-- What an accepted configuration is.
use arbitro_raft.Base.{
  ℕ, ◌<◌, ◌≡◌, ◌↔◌, refl, Bool, true, false, not, ◌&&◌, ◌||◌, List, [], ◌∷◌, arith, contains,
  distinct,
}
use arbitro_raft.Error.{Result, ok, err}
use arbitro_raft.Config.{NodeConfig}
use arbitro_raft.Node.Config.{IsWellFormed, disjoint}
use arbitro_raft.Validation.{
  is_empty_list, check_peers, check_learners, check_timing, validate_node_config,
}

-- The configurations that a node may start with.
pub record IsSound (c : NodeConfig) : Type 0 where
  pub some_peer : is_empty_list c.peers ≡ false
  pub takes_part : (contains c.peers c.node_id || contains c.learners c.node_id) ≡ true
  pub bootstraps : contains c.bootstrap_peers c.node_id ≡ true
  pub well_formed : IsWellFormed c
  pub heartbeat_pos : 0 < c.timing.heartbeat_ms
  pub heartbeat_lt : c.timing.heartbeat_ms < c.timing.election_min_ms
  pub election_lt : c.timing.election_min_ms < c.timing.election_max_ms
  pub chunk_pos : 0 < c.limits.snapshot_chunk_bytes

abbrev is_ok : Result (Unit {0}) → Bool
is_ok (ok _) = true
is_ok (err _) = false

disjoint-cons :
    (p : ℕ) (xs ys : List ℕ) → disjoint xs (p ∷ ys) ≡ (not (contains xs p) && disjoint xs ys)
disjoint-cons p [] ys = refl
disjoint-cons p (x ∷ xs) ys = ground (arith, disjoint-cons p xs ys)

is_ok-check_peers :
    (ps seen : List ℕ) → is_ok (check_peers seen ps) ≡ (distinct ps && disjoint ps seen)
unfolding check_peers
is_ok-check_peers [] seen = refl
is_ok-check_peers (p ∷ ps) seen =
    ground (arith, is_ok-check_peers ps (p ∷ seen), disjoint-cons p ps seen)

is_ok-check_learners :
    (ls peers seen : List ℕ)
    → is_ok (check_learners peers seen ls)
      ≡ (distinct ls && (disjoint ls seen && disjoint ls peers))
unfolding check_learners
is_ok-check_learners [] peers seen = refl
is_ok-check_learners (l ∷ ls) peers seen =
    ground (arith, is_ok-check_learners ls peers (l ∷ seen), disjoint-cons l ls seen)

disjoint-nil : (xs : List ℕ) → disjoint xs [] ≡ true
disjoint-nil [] = refl
disjoint-nil (x ∷ xs) = disjoint-nil xs

no_bootstrap : (xs : List ℕ) (p : ℕ) → contains xs p ≡ true → is_empty_list xs ≡ false
no_bootstrap [] p h = absurd (ground (arith, h))
no_bootstrap (x ∷ xs) p h = refl

-- A configuration passes the check exactly when it is sound: voters, the node itself a voter or a
-- learner and among the bootstrap peers, voters and learners distinct and apart, and timings and
-- chunk size in order.
pub validate_node_config-IsSound : (c : NodeConfig) → (validate_node_config c ≡ ok tt) ↔ IsSound c
unfolding validate_node_config check_timing
validate_node_config-IsSound c =
    let a = is_ok-check_peers c.peers [] in
    let b = is_ok-check_learners c.learners c.peers [] in
    let d = disjoint-nil c.peers in
    let e = disjoint-nil c.learners in
    (
      λ h. record {
        some_peer = ground (arith, h);
        takes_part = ground (arith, h);
        bootstraps = ground (arith, h);
        well_formed = record {
          peers_distinct = ground (arith, h, a);
          learners_distinct = ground (arith, h, b);
          apart = ground (arith, h, b);
        };
        heartbeat_pos = ground (arith, h);
        heartbeat_lt = ground (arith, h);
        election_lt = ground (arith, h);
        chunk_pos = ground (arith, h);
      },
      λ s. ground (
        arith,
        s.some_peer,
        s.takes_part,
        s.bootstraps,
        s.well_formed.peers_distinct,
        s.well_formed.learners_distinct,
        s.well_formed.apart,
        s.heartbeat_pos,
        s.heartbeat_lt,
        s.election_lt,
        s.chunk_pos,
        a,
        b,
        d,
        e,
        no_bootstrap c.bootstrap_peers c.node_id,
      ),
    )

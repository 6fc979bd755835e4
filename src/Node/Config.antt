-- ===== src/Node/Config.antt =====
-- The voters and learners of a node under the control entries of src/api/node/membership.rs.
use arbitro_raft.Base.{
  ℕ, ◌≡◌, refl, ap, Bool, true, false, not, ◌&&◌, ◌||◌, List, [], ◌∷◌, ◌++◌, ◌==◌, arith, contains,
  distinct, retain, inl, inr, Bool-cases,
}
use arbitro_raft.Config.{NodeConfig}
use arbitro_raft.Storage.{RaftStorage}
use arbitro_raft.Membership.{
  ConfigChangeEntry, ConfigChangePhase, joint, final, add_learner, remove_learner,
}
use arbitro_raft.Node.{RaftNode, current_term, step_down, demote_to_follower_keep_term}
use arbitro_raft.Node.Membership.{
  merge, without, add_learners, adopt, apply_config_change, count_config_change,
  reconcile_leader_progress_with_config,
}

-- No peer of the first list is in the second.
abbrev pub disjoint : List ℕ → List ℕ → Bool
disjoint [] ys = true
disjoint (x ∷ xs) ys = not (contains ys x) && disjoint xs ys

contains-snoc : (xs : List ℕ) (p x : ℕ) → contains (xs ++ p ∷ []) x ≡ (contains xs x || (p == x))
contains-snoc [] p x = ground arith
contains-snoc (y ∷ xs) p x = ground (arith, contains-snoc xs p x)

-- A transition has exactly the old and the new voters.
pub contains-merge :
    (ps xs : List ℕ) (x : ℕ) → contains (merge xs ps) x ≡ (contains xs x || contains ps x)
unfolding merge
contains-merge [] xs x = ground arith
contains-merge (p ∷ ps) xs x =
    ground (arith, contains-merge ps xs x, contains-merge ps (xs ++ p ∷ []) x, contains-snoc xs p x)

distinct-snoc :
    (xs : List ℕ) (p : ℕ)
    → distinct xs ≡ true
    → contains xs p ≡ false
    → distinct (xs ++ p ∷ []) ≡ true
distinct-snoc [] p d n = refl
distinct-snoc (x ∷ xs) p d n = ground (arith, distinct-snoc xs p, contains-snoc xs p x)

pub distinct-merge : (ps xs : List ℕ) → distinct xs ≡ true → distinct (merge xs ps) ≡ true
unfolding merge
distinct-merge [] xs d = d
distinct-merge (p ∷ ps) xs d = elim (Bool-cases (contains xs p)) [
  | inl e ↦ rw e (distinct-merge ps xs d)
  | inr e ↦ rw e (distinct-merge ps (xs ++ p ∷ []) (distinct-snoc xs p d e))
]

contains-retain :
    (f : ℕ → Bool) (xs : List ℕ) (x : ℕ) → contains (retain f xs) x ≡ (contains xs x && f x)
contains-retain f [] x = refl
contains-retain f (y ∷ xs) x = elim (Bool-cases (y == x)) [
  | inl e ↦
      let same : f y ≡ f x = ap f (ground (arith, e)) in
      ground (arith, same, contains-retain f xs x)
  | inr e ↦ ground (arith, e, contains-retain f xs x)
]

distinct-retain : (f : ℕ → Bool) (xs : List ℕ) → distinct xs ≡ true → distinct (retain f xs) ≡ true
distinct-retain f [] d = refl
distinct-retain f (y ∷ xs) d = ground (arith, distinct-retain f xs, contains-retain f xs y)

disjoint-without : (xs ys : List ℕ) → disjoint (without xs ys) ys ≡ true
disjoint-without [] ys = refl
disjoint-without (x ∷ xs) ys = ground (arith, disjoint-without xs ys)

disjoint-retain :
    (f : ℕ → Bool) (xs ys : List ℕ) → disjoint xs ys ≡ true → disjoint (retain f xs) ys ≡ true
disjoint-retain f [] ys h = refl
disjoint-retain f (x ∷ xs) ys h = ground (arith, disjoint-retain f xs ys)

disjoint-snoc :
    (xs ys : List ℕ) (p : ℕ)
    → disjoint xs ys ≡ true
    → contains ys p ≡ false
    → disjoint (xs ++ p ∷ []) ys ≡ true
disjoint-snoc [] ys p h n = ground arith
disjoint-snoc (x ∷ xs) ys p h n = ground (arith, disjoint-snoc xs ys p)

-- Voters and learners have each peer once, and none is both.
pub record IsWellFormed (c : NodeConfig) : Type 0 where
  pub peers_distinct : distinct c.peers ≡ true
  pub learners_distinct : distinct c.learners ≡ true
  pub apart : disjoint c.learners c.peers ≡ true

abbrev Learners : List ℕ → List ℕ → Type 0
Learners peers ls = (distinct ls ≡ true) × (disjoint ls peers ≡ true)

add_learners-Learners :
    (peers ps ls : List ℕ) → Learners peers ls → Learners peers (add_learners peers ls ps)
unfolding add_learners
add_learners-Learners peers [] ls h = h
add_learners-Learners peers (p ∷ ps) ls h = elim (Bool-cases (contains peers p || contains ls p)) [
  | inl e ↦ rw e (add_learners-Learners peers ps ls h)
  | inr e ↦ rw e (
      add_learners-Learners peers ps (ls ++ p ∷ [])
        (distinct-snoc ls p h.0 (ground arith), disjoint-snoc ls peers p h.1 (ground arith)))
]

-- A control entry names each voter once on both sides.
abbrev pub NamesOnce : ConfigChangeEntry → Type 0
NamesOnce e = (distinct e.old_peers ≡ true) × (distinct e.new_peers ≡ true)

module _ {S : Type 0} where
  adopt-IsWellFormed :
      (phase : ConfigChangePhase) (olds news : List ℕ) (n : RaftNode S)
      → distinct olds ≡ true
      → distinct news ≡ true
      → IsWellFormed n.config
      → IsWellFormed (adopt phase olds news n).1.config
  unfolding adopt
  adopt-IsWellFormed joint olds news n o d w = record {
    peers_distinct = distinct-merge news olds o;
    learners_distinct =
        distinct-retain (λ p. not (contains (merge olds news) p)) n.config.learners
          w.learners_distinct;
    apart = disjoint-without n.config.learners (merge olds news);
  }
  adopt-IsWellFormed final olds [] n o d w = w
  adopt-IsWellFormed final olds (p ∷ ps) n o d w = record {
    peers_distinct = d;
    learners_distinct =
        distinct-retain (λ x. not (contains (p ∷ ps) x)) n.config.learners w.learners_distinct;
    apart = disjoint-without n.config.learners (p ∷ ps);
  }
  adopt-IsWellFormed add_learner olds news n o d w =
      let (a, b) =
        add_learners-Learners n.config.peers news n.config.learners
          (w.learners_distinct, w.apart) in
      record { peers_distinct = w.peers_distinct; learners_distinct = a; apart = b }
  adopt-IsWellFormed remove_learner olds news n o d w = record {
    peers_distinct = w.peers_distinct;
    learners_distinct =
        distinct-retain (λ p. not (contains news p)) n.config.learners w.learners_distinct;
    apart = disjoint-retain (λ p. not (contains news p)) n.config.learners n.config.peers w.apart;
  }

module _ {S : Type 0} ⦃st : RaftStorage S⦄ where
  step_down-config : (t : ℕ) (n : RaftNode S) → (step_down t n).1.config ≡ n.config
  unfolding step_down demote_to_follower_keep_term
  step_down-config t n = ground arith

  reconcile-config : (n : RaftNode S) → (reconcile_leader_progress_with_config n).config ≡ n.config
  unfolding reconcile_leader_progress_with_config
  reconcile-config n = refl

  apply_config_change-config :
      (e : ConfigChangeEntry) (n : RaftNode S)
      → (apply_config_change e n).1.config
        ≡ (adopt e.phase e.old_peers e.new_peers (count_config_change n)).1.config
  unfolding apply_config_change
  apply_config_change-config e n =
      let m = (adopt e.phase e.old_peers e.new_peers (count_config_change n)).1 in
      let r = reconcile_leader_progress_with_config m in
      ground (
        arith,
        reconcile-config m,
        step_down-config (current_term m) m,
        step_down-config (current_term r) r,
      )

  -- A control entry that names each voter once keeps voters and learners distinct and apart, in
  -- each phase, on leaders and followers, and also where applying it fails.
  pub apply_config_change-IsWellFormed :
      (e : ConfigChangeEntry) (n : RaftNode S)
      → NamesOnce e
      → IsWellFormed n.config
      → IsWellFormed (apply_config_change e n).1.config
  unfolding count_config_change
  apply_config_change-IsWellFormed e n d w =
      rw (apply_config_change-config e n)
        (adopt-IsWellFormed e.phase e.old_peers e.new_peers (count_config_change n) d.0 d.1 w)

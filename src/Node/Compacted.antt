-- ===== src/Node/Compacted.antt =====
-- What a compaction discards: nothing that a voter still needs, and nothing that is not applied.
use arbitro_raft.Base.{
  ℕ, ◌≤◌, ◌≡◌, refl, sym, ap, ◌∙◌, subst, Bool, true, false, List, [], ◌∷◌, Option, none, some, ltb,
  ◌==◌, arith, inl, inr, Bool-cases, contains, if◌then◌else◌,
}
use arbitro_raft.Types.{SnapshotMeta}
use arbitro_raft.Error.{Result, ok, err}
use arbitro_raft.Storage.{RaftStorage}
use arbitro_raft.PeerMap.{is_empty}
use arbitro_raft.Node.{RaftNode, M, pure, modify, ◌>>◌, from_storage, is_leader, on_storage, when}
use arbitro_raft.Node.Rules.{bind_rule}
use arbitro_raft.Node.Commit.{term_at}
use arbitro_raft.Node.Compaction.{
  compaction_due, matched_of, voter_horizon, compaction_horizon, covers, settle_debt,
  count_compaction, save_and_truncate, compact_with_horizon, compact_unless_covered, maybe_compact,
}

-- What `truncate_before` leaves, where it is called.
abbrev pub truncated : {S : Type 0} → RaftStorage S → ℕ → S → S
truncated st up_to s = if ltb 0 up_to then (st.truncate_before s up_to).1 else s

-- A compaction of `n` that returned `meta` and left `m`, and the index below which it truncated.
pub record IsCompacted {S : Type 0} (st : RaftStorage S) (n : RaftNode S) (bytes : List ℕ)
    (meta : SnapshotMeta) (m : RaftNode S) : Type 0 where
  pub up_to : ℕ
  pub at_applied : meta.last_included_index ≡ n.last_applied
  pub is_applied : up_to ≤ n.last_applied
  pub is_replicated :
      is_leader n ≡ true
      → (p : ℕ) → contains n.config.peers p ≡ true
      → (p == n.config.node_id) ≡ false
      → up_to ≤ matched_of n p
  pub stored : m.storage ≡ truncated st up_to (st.save_snapshot n.storage meta bytes).1
  pub settled : (m.compaction_debt_entries ≡ 0) × (m.compaction_debt_bytes ≡ 0)

module _ {S : Type 0} (n : RaftNode S) where
  voter_horizon-le : (ps : List ℕ) (h : ℕ) → voter_horizon n ps h ≤ h
  unfolding voter_horizon
  voter_horizon-le [] h = omega arith
  voter_horizon-le (p ∷ ps) h =
      ground (arith, voter_horizon-le ps h, voter_horizon-le ps (matched_of n p))

  head_matched :
      (ps : List ℕ) (h q : ℕ)
      → (q == n.config.node_id) ≡ false
      → voter_horizon n (q ∷ ps) h ≤ matched_of n q
  unfolding voter_horizon
  head_matched ps h q o =
      ground (arith, o, voter_horizon-le ps h, voter_horizon-le ps (matched_of n q))

  voter_horizon-matched :
      (ps : List ℕ) (h p : ℕ)
      → contains ps p ≡ true
      → (p == n.config.node_id) ≡ false
      → voter_horizon n ps h ≤ matched_of n p
  unfolding voter_horizon
  voter_horizon-matched [] h p c o = ground (arith, c)
  voter_horizon-matched (q ∷ ps) h p c o = elim (Bool-cases (q == p)) [
    | inl same ↦
        let e : q ≡ p = ground (arith, same) in
        subst (λ x. voter_horizon n (q ∷ ps) h ≤ matched_of n x) e
          (head_matched ps h q (subst (λ x. (x == n.config.node_id) ≡ false) (sym e) o))
    | inr other ↦ voter_horizon-matched ps _ p (ground (arith, c, other)) o
  ]

  compaction_horizon-applied : compaction_horizon n ≤ n.last_applied
  unfolding compaction_horizon
  compaction_horizon-applied = ground (arith, voter_horizon-le n.config.peers n.last_applied)

  compaction_horizon-replicated :
      (p : ℕ)
      → is_leader n ≡ true
      → contains n.config.peers p ≡ true
      → (p == n.config.node_id) ≡ false
      → compaction_horizon n ≤ matched_of n p
  unfolding compaction_horizon
  compaction_horizon-replicated p l c o =
      ground (arith, l, voter_horizon-matched n.config.peers n.last_applied p c o)

abbrev Compacts :
    {S : Type 0} → RaftStorage S → RaftNode S → List ℕ → Result SnapshotMeta → RaftNode S → Type 0
Compacts st n bytes (ok meta) m = IsCompacted st n bytes meta m
Compacts st n bytes (err e) m = Unit {0}

abbrev MaybeCompacts :
    {S : Type 0}
    → RaftStorage S
    → RaftNode S
    → List ℕ
    → Result (Option SnapshotMeta)
    → RaftNode S
    → Type 0
MaybeCompacts st n bytes (ok (some meta)) m = IsCompacted st n bytes meta m
MaybeCompacts st n bytes (ok none) m = Unit {0}
MaybeCompacts st n bytes (err e) m = Unit {0}

module _ {S : Type 0} ⦃st : RaftStorage S⦄ where
  term_at-storage : (i : ℕ) (n : RaftNode S) → (term_at i n).1.storage ≡ n.storage
  unfolding term_at
  term_at-storage i n = ground arith

  -- A node from which the record of the compaction can be read off.
  compacted :
      (n m : RaftNode S) (meta : SnapshotMeta) (bytes : List ℕ)
      → meta.last_included_index ≡ n.last_applied
      → m.storage ≡ truncated st (compaction_horizon n) (st.save_snapshot n.storage meta bytes).1
      → (m.compaction_debt_entries ≡ 0) × (m.compaction_debt_bytes ≡ 0)
      → IsCompacted st n bytes meta m
  compacted n m meta bytes a stored z = record {
    up_to = compaction_horizon n;
    at_applied = a;
    is_applied = compaction_horizon-applied n;
    is_replicated = λ l p c o. compaction_horizon-replicated n p l c o;
    stored = stored;
    settled = z;
  }

  -- The truncation, where there is one, and the count.
  finish-Compacts :
      (n k : RaftNode S) (meta : SnapshotMeta) (bytes : List ℕ) (b : Bool)
      → meta.last_included_index ≡ n.last_applied
      → ltb 0 (compaction_horizon n) ≡ b
      → k.storage ≡ (st.save_snapshot n.storage meta bytes).1
      → (k.compaction_debt_entries ≡ 0) × (k.compaction_debt_bytes ≡ 0)
      → let rest : M S SnapshotMeta =
          when b (on_storage λ s. st.truncate_before s (compaction_horizon n))
          >> (modify count_compaction >> pure meta) in
        Compacts st n bytes (rest k).0 (rest k).1
  unfolding count_compaction
  finish-Compacts n k meta bytes true a e same z =
      bind_rule (Compacts st n bytes) (on_storage λ s. st.truncate_before s (compaction_horizon n))
        _ k (λ _ _. tt)
        λ _ _.
          compacted n _ meta bytes a
            (ap (λ s. (st.truncate_before s (compaction_horizon n)).1) same ∙ rw e refl) z
  finish-Compacts n k meta bytes false a e same z = compacted n _ meta bytes a (same ∙ rw e refl) z

  save_and_truncate-Compacts :
      (n k : RaftNode S) (meta : SnapshotMeta) (bytes : List ℕ)
      → meta.last_included_index ≡ n.last_applied
      → k.storage ≡ n.storage
      → Compacts st n bytes
          (save_and_truncate meta (compaction_horizon n) bytes k).0
          (save_and_truncate meta (compaction_horizon n) bytes k).1
  unfolding save_and_truncate settle_debt
  save_and_truncate-Compacts n k meta bytes a same =
      bind_rule (Compacts st n bytes) (on_storage λ s. st.save_snapshot s meta bytes) _ k
        (λ _ _. tt)
        λ _ _.
          finish-Compacts n _ meta bytes (ltb 0 (compaction_horizon n)) a refl
            (ap (λ s. (st.save_snapshot s meta bytes).1) same) (refl, refl)

  compact_with_horizon-Compacts :
      (bytes : List ℕ) (n : RaftNode S)
      → Compacts st n bytes
          (compact_with_horizon (ok bytes) (compaction_horizon n) n).0
          (compact_with_horizon (ok bytes) (compaction_horizon n) n).1
  unfolding compact_with_horizon
  compact_with_horizon-Compacts bytes n =
      bind_rule (Compacts st n bytes) (term_at n.last_applied) _ n (λ _ _. tt)
        λ term _.
          save_and_truncate-Compacts n (term_at n.last_applied n).1 _ bytes refl
            (term_at-storage n.last_applied n)

  compact_unless_covered-Compacts :
      (bytes : List ℕ) (n : RaftNode S) (existing : Option SnapshotMeta)
      → MaybeCompacts st n bytes
          (compact_unless_covered (ok bytes) existing n).0
          (compact_unless_covered (ok bytes) existing n).1
  unfolding compact_unless_covered
  compact_unless_covered-Compacts bytes n existing =
      elim (Bool-cases (covers existing n.last_applied)) [
        | inl c ↦ rw (compact_unless_covered, c) tt
        | inr c ↦
            let run : M S SnapshotMeta = compact_with_horizon (ok bytes) (compaction_horizon n) in
            rw (compact_unless_covered, c)
              (bind_rule (MaybeCompacts st n bytes) run (λ meta. pure (some meta)) n (λ _ _. tt)
                λ meta e.
                  subst (λ r. Compacts st n bytes r (run n).1) e
                    (compact_with_horizon-Compacts bytes n))
      ]

  maybe_compact-Compacts :
      (bytes : List ℕ) (n : RaftNode S)
      → MaybeCompacts st n bytes (maybe_compact (ok bytes) n).0 (maybe_compact (ok bytes) n).1
  unfolding maybe_compact
  maybe_compact-Compacts bytes n = elim (Bool-cases (compaction_due n)) [
    | inr e ↦ rw (maybe_compact, e) tt
    | inl due ↦ elim (Bool-cases (is_empty n.pending_snapshots)) [
      | inr e ↦ rw (maybe_compact, due, e) tt
      | inl quiet ↦ elim (Bool-cases (n.last_applied == 0)) [
        | inl e ↦ rw (maybe_compact, due, quiet, e) tt
        | inr e ↦
            rw (maybe_compact, due, quiet, e)
              (bind_rule (MaybeCompacts st n bytes) (from_storage st.load_snapshot_meta)
                (compact_unless_covered (ok bytes)) n (λ _ _. tt)
                λ existing _. compact_unless_covered-Compacts bytes n existing)
      ]
    ]
  ]

  -- A compaction that runs, under a snapshot of the state machine, saves that snapshot at what is
  -- applied, settles the debt, and truncates the log below an index that is applied and that, on a
  -- leader, every other voter has replicated by what the leader knows.
  pub maybe_compact-IsCompacted :
      (bytes : List ℕ) (n : RaftNode S) (meta : SnapshotMeta)
      → (maybe_compact (ok bytes) n).0 ≡ ok (some meta)
      → IsCompacted st n bytes meta (maybe_compact (ok bytes) n).1
  maybe_compact-IsCompacted bytes n meta e =
      subst (λ r. MaybeCompacts st n bytes r (maybe_compact (ok bytes) n).1) e
        (maybe_compact-Compacts bytes n)

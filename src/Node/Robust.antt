-- ===== src/Node/Robust.antt =====
-- No frame of a peer stops a node: where the storage raises no fatal error, no handler does.
use arbitro_raft.Base.{
  ℕ, ◌≡◌, refl, subst, Bool, true, false, not, ◌&&◌, List, [], ◌∷◌, Option, none, some, ltb, ◌==◌,
  arith, inl, inr, Bool-cases, Option-cases, saturating_add, if◌then◌else◌,
}
use arbitro_raft.Types.{HardState, SnapshotMeta, LogEntry}
use arbitro_raft.Error.{Result, ok, err, is_fatal, class}
use arbitro_raft.Storage.{RaftStorage}
use arbitro_raft.Arena
use arbitro_raft.Membership.{ConfigChangeEntry, ConfigChangePhase}
use arbitro_raft.Node.{
  RaftNode, M, ◌>>=◌, ◌>>◌, pure, modify, when, current_term, is_leader, step_down,
  storage_truncate, get_node, is_voter, send_message, demote_to_follower_keep_term, on_storage,
  from_storage,
}
use arbitro_raft.Wire.{AppendEntries, AppendEntriesResp}
use arbitro_raft.Wire.Entries.{EntryHeader, entry_iter}
use arbitro_raft.Node.Rules.{bind_rule}
use arbitro_raft.Node.Membership.{
  apply_config_change, adopt, reconcile_leader_progress_with_config, count_config_change,
}
use arbitro_raft.Node.Append.{
  scan_entries, compare_entry, local_term, append_new, activate, latest_config,
  apply_append_entries, prev_matches, accept_entries, reject_entries, check_entries,
  handle_append_entries, handle_append_entries_response, follow,
}

-- The result is no fatal error.
abbrev pub Mild {ℓ} : {A : Type ℓ} → Result A → Type 0
Mild (ok a) = Unit {0}
Mild (err e) = is_fatal e ≡ false

-- No call of the storage raises a fatal error.
pub record IsMild {S : Type 0} (st : RaftStorage S) : Type 0 where
  pub saves : (s : S) (h : HardState) → Mild (st.save_hard_state s h).0
  pub appends : (s : S) (es : List LogEntry) → Mild (st.append_entries s es).0
  pub reads_term : (s : S) (i : ℕ) → Mild (st.term_at s i)
  pub reads_position : (s : S) → Mild (st.last_log_position s)
  pub appends_seeded :
      (s : S) (hs : List EntryHeader) (ps : List (List ℕ))
      → Mild (st.append_entries_seeded s hs ps).0
  pub truncates : (s : S) (i : ℕ) → Mild (st.truncate_suffix s i).0
  pub truncates_before : (s : S) (i : ℕ) → Mild (st.truncate_before s i).0
  pub saves_snapshot : (s : S) (m : SnapshotMeta) (b : List ℕ) → Mild (st.save_snapshot s m b).0

-- A sequence of two mild parts is mild.
pub Mild-bind :
    {S A B : Type 0} (m : M S A) (f : A → M S B) (n : RaftNode S)
    → Mild (m n).0
    → ((a : A) → Mild (f a (m n).1).0)
    → Mild ((m >>= f) n).0
Mild-bind {A = A} m f n h next =
    bind_rule (λ r _. Mild r) m f n (λ e bad. subst (λ r. Mild r) bad h) (λ a _. next a)

pub Mild-when :
    {S : Type 0} (b : Bool) (m : M S (Unit {0})) (n : RaftNode S)
    → Mild (m n).0
    → Mild (when b m n).0
Mild-when true m n h = h
Mild-when false m n h = tt

pub Mild-if :
    {S A : Type 0} (b : Bool) (m k : M S A) (n : RaftNode S)
    → Mild (m n).0
    → Mild (k n).0
    → Mild ((if b then m else k) n).0
Mild-if true m k n h g = h
Mild-if false m k n h g = g

adopt-Mild :
    {S : Type 0} (phase : ConfigChangePhase) (old_peers new_peers : List ℕ) (n : RaftNode S)
    → Mild (adopt phase old_peers new_peers n).0
unfolding adopt is_fatal class
adopt-Mild phase old_peers new_peers n = ground arith

module _ {S : Type 0} ⦃st : RaftStorage S⦄ (mild : IsMild st) where
  pub step_down-Mild : (t : ℕ) (n : RaftNode S) → Mild (step_down t n).0
  unfolding step_down
  step_down-Mild t n =
      let k : RaftNode S = record n {
        hard_state = record { current_term = t; voted_for = none };
      } in
      Mild-bind (on_storage λ s. st.save_hard_state s k.hard_state)
        (λ _. modify demote_to_follower_keep_term) k (mild.saves k.storage k.hard_state) (λ _. tt)

  pub raise_term-Mild :
      (t : ℕ) (n : RaftNode S) → Mild (when (ltb (current_term n) t) (step_down t) n).0
  raise_term-Mild t n = Mild-when (ltb (current_term n) t) (step_down t) n (step_down-Mild t n)

  pub storage_truncate-Mild : (from : ℕ) (n : RaftNode S) → Mild (storage_truncate from n).0
  unfolding storage_truncate
  storage_truncate-Mild from n =
      Mild-bind (on_storage λ s. st.truncate_suffix s from) _ n (mild.truncates n.storage from)
        λ _. Mild-bind (from_storage st.last_log_position) _ _ (mild.reads_position _) (λ _. tt)

  pub local_term-Mild : (i : ℕ) (n : RaftNode S) → Mild (local_term i n).0
  unfolding local_term
  local_term-Mild i n = elim (Option-cases (Arena.get_term n.log_metadata i)) [
    | inl e ↦ rw (local_term, e) (mild.reads_term n.storage i)
    | inr (t, e) ↦ rw (local_term, e) tt
  ]

  compare_entry-Mild :
      (e : LogEntry) (es : List LogEntry) (others : M S (List LogEntry)) (t : Option ℕ)
      (n : RaftNode S)
      → Mild (others n).0
      → Mild (compare_entry e es others t n).0
  unfolding compare_entry
  compare_entry-Mild e es others none n h = tt
  compare_entry-Mild e es others (some t) n h = elim (Bool-cases (t == e.term)) [
    | inl same ↦ rw (compare_entry, same) h
    | inr other ↦
        rw (compare_entry, other)
          (Mild-bind (storage_truncate e.index) (λ _. pure (e ∷ es)) n
            (storage_truncate-Mild e.index n) (λ _. tt))
  ]

  scan_entries-Mild :
      (es : List LogEntry) (expected : ℕ) (n : RaftNode S) → Mild (scan_entries expected es n).0
  unfolding scan_entries is_fatal class
  scan_entries-Mild [] expected n = tt
  scan_entries-Mild (e ∷ es) expected n = elim (Bool-cases (e.index == expected)) [
    | inr gap ↦ rw (scan_entries, gap) refl
    | inl next ↦
        let others = scan_entries (saturating_add expected 1) es in
        rw (scan_entries, next)
          (Mild-bind (local_term e.index) (compare_entry e es others) n (local_term-Mild e.index n)
            λ t.
              compare_entry-Mild e es others t _
                (scan_entries-Mild es (saturating_add expected 1) _))
  ]

  -- What follows the `match` on the phase.
  after_adopt : M S (Unit {0})
  after_adopt = do
    n ← get_node
    when (is_leader n) (modify reconcile_leader_progress_with_config)
    n ← get_node
    when (is_leader n && not (is_voter n n.config.node_id)) (step_down (current_term n))

  after_adopt-Mild : (n : RaftNode S) → Mild (after_adopt n).0
  unfolding after_adopt
  after_adopt-Mild n =
      let first : M S (Unit {0}) =
        when (is_leader n) (modify reconcile_leader_progress_with_config) in
      Mild-bind first _ n (Mild-when (is_leader n) _ n tt) λ _.
        let m = (first n).1 in
        Mild-when (is_leader m && not (is_voter m m.config.node_id)) (step_down (current_term m)) m
          (step_down-Mild (current_term m) m)

  apply_config_change-Mild :
      (entry : ConfigChangeEntry) (n : RaftNode S) → Mild (apply_config_change entry n).0
  unfolding apply_config_change after_adopt
  apply_config_change-Mild entry n =
      Mild-bind (adopt entry.phase entry.old_peers entry.new_peers) (λ _. after_adopt)
        (count_config_change n)
        (adopt-Mild entry.phase entry.old_peers entry.new_peers (count_config_change n))
        λ _. after_adopt-Mild _

  pub activate-Mild : (c : Option ConfigChangeEntry) (n : RaftNode S) → Mild (activate c n).0
  unfolding activate
  activate-Mild none n = tt
  activate-Mild (some entry) n = apply_config_change-Mild entry n

  append_new-Mild : (es : List LogEntry) (n : RaftNode S) → Mild (append_new es n).0
  unfolding append_new
  append_new-Mild [] n = tt
  append_new-Mild (e ∷ es) n =
      Mild-bind (on_storage λ s. st.append_entries s (e ∷ es)) _ n (mild.appends n.storage (e ∷ es))
        λ _. activate-Mild (latest_config (e ∷ es)) _

  apply_append_entries-Mild :
      (msg : AppendEntries) (payload : List ℕ) (n : RaftNode S)
      → Mild (apply_append_entries msg payload n).0
  unfolding apply_append_entries
  apply_append_entries-Mild msg payload n =
      let es = entry_iter payload msg.entry_count in
      let expected = saturating_add msg.prev_log_index 1 in
      Mild-bind (scan_entries expected es) append_new n (scan_entries-Mild es expected n)
        λ new. append_new-Mild new _

  pub prev_matches-Mild : (index term : ℕ) (n : RaftNode S) → Mild (prev_matches index term n).0
  unfolding prev_matches
  prev_matches-Mild index term n = let r = mild.reads_term n.storage index in ground (arith, r)

  pub reject_entries-Mild :
      (from : ℕ) (msg : AppendEntries) (hint : ℕ) (n : RaftNode S)
      → Mild (reject_entries from msg hint n).0
  unfolding reject_entries send_message
  reject_entries-Mild from msg hint n = tt

  accept_entries-Mild :
      (from : ℕ) (msg : AppendEntries) (payload : List ℕ) (n : RaftNode S)
      → Mild (accept_entries from msg payload n).0
  unfolding accept_entries send_message
  accept_entries-Mild from msg payload n =
      Mild-bind (apply_append_entries msg payload) _ n (apply_append_entries-Mild msg payload n)
        λ _. tt

  check_entries-Mild :
      (from : ℕ) (msg : AppendEntries) (payload : List ℕ) (n : RaftNode S)
      → Mild (check_entries from msg payload n).0
  unfolding check_entries
  check_entries-Mild from msg payload n =
      Mild-bind (prev_matches msg.prev_log_index msg.prev_log_term) _ n
        (prev_matches-Mild msg.prev_log_index msg.prev_log_term n)
        λ b.
          Mild-if b _ _ _ (accept_entries-Mild from msg payload _)
            (reject_entries-Mild from msg _ _)

  pub handle_append_entries-Mild :
      (now from : ℕ) (msg : AppendEntries) (payload : List ℕ) (n : RaftNode S)
      → Mild (handle_append_entries now from msg payload n).0
  unfolding handle_append_entries
  handle_append_entries-Mild now from msg payload n =
      elim (Bool-cases (ltb msg.term (current_term n))) [
        | inl old ↦
            rw (old, handle_append_entries) (reject_entries-Mild from msg n.cached_last_log.0 n)
        | inr new ↦
            let raise : M S (Unit {0}) =
              when (ltb (current_term n) msg.term) (step_down msg.term) in
            rw (new, handle_append_entries)
              (Mild-bind raise (λ _ m. check_entries from msg payload (follow msg.leader_id now m))
                n (raise_term-Mild msg.term n)
                λ _. check_entries-Mild from msg payload (follow msg.leader_id now (raise n).1))
      ]

  pub handle_append_entries_response-Mild :
      (from : ℕ) (resp : AppendEntriesResp) (n : RaftNode S)
      → Mild (handle_append_entries_response from resp n).0
  unfolding handle_append_entries_response
  handle_append_entries_response-Mild from resp n = ground (arith, step_down-Mild resp.term n)

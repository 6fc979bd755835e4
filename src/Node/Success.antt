-- ===== src/Node/Success.antt =====
-- The append handler behind the recognition of the leader: the previous entry, and a success.
use arbitro_raft.Base.{
  ℕ, suc, ◌<◌, ◌≡◌, ◌≢◌, refl, sym, ap, ◌∙◌, Bool, true, false, List, [], ◌∷◌, ◌++◌, Option, ◌⊎◌,
  Option-cases, none, some, ◌==◌, arith, if◌then◌else◌, u64_max, inl, inr, Bool-cases, ◌-◌, min,
}
use arbitro_raft.Types.{LogEntry}
use arbitro_raft.Error.{ok}
use arbitro_raft.Storage.{RaftStorage}
use arbitro_raft.Arena.{get_term}
use arbitro_raft.Wire.{AppendEntries, AppendEntriesResp, RaftMessage, append_entries_resp}
use arbitro_raft.Wire.Entries.{entry_iter}
use arbitro_raft.Node.{
  RaftNode, is_leader, modify, get_node, ◌>>=◌, ◌>>◌, send_message, set_commit_index,
}
use arbitro_raft.Node.Rules.{bind_rule}
use arbitro_raft.Node.Keeps.{apply_append_entries-Keeps, prev_matches-node}
use arbitro_raft.Node.Append.{
  apply_append_entries, accept_entries, reject_entries, check_entries, prev_matches, commit_up_to,
  append_reply,
}
use arbitro_raft.Node.Log.{Contiguous, IsLog, IsCoherent}
use arbitro_raft.Node.Logged.{Logged, apply_append_entries-Logged}
use arbitro_raft.Node.Vote.{Result-cases, snoc-ne, snoc-injective}

-- The messages that the theorems are about: the entries stand at consecutive indexes.
abbrev pub IsBatch : AppendEntries → List ℕ → Type 0
IsBatch msg payload =
    (msg.prev_log_index < u64_max)
    × Contiguous (suc msg.prev_log_index) (entry_iter payload msg.entry_count)

-- The reply that accepts: with success.
abbrev pub Accepts : {S : Type 0} → ℕ → RaftNode S → RaftNode S → Type 0
Accepts from n m =
    (r : AppendEntriesResp) × (m.outbox ≡ n.outbox ++ (from, append_entries_resp r) ∷ [])
    × (r.success ≡ 1)

module _ {S : Type 0} ⦃st : RaftStorage S⦄ (log : S → ℕ → Option ℕ) (laws : IsLog st log) where
  -- The batch of a message, behind its previous entry.
  abbrev pub Batched : AppendEntries → List ℕ → RaftNode S → RaftNode S → Type 0
  Batched msg payload =
      Logged log laws (suc msg.prev_log_index) (entry_iter payload msg.entry_count)

  -- What is written is judged by the storage and the cache alone.
  Logged-same :
      {k : ℕ} {es : List LogEntry} {n m m' : RaftNode S}
      → m'.storage ≡ m.storage
      → m'.log_metadata ≡ m.log_metadata
      → Logged log laws k es n m
      → Logged log laws k es n m'
  Logged-same {m' = m'} s a l = record {
    held = rw s l.held;
    below = λ j lt. ap (λ x. log x j) s ∙ l.below j lt;
    coherent = rw (s, a) l.coherent;
  }

  pub Logged-from :
      {k : ℕ} {es : List LogEntry} {n n' m : RaftNode S}
      → ((j : ℕ) → log n'.storage j ≡ log n.storage j)
      → Logged log laws k es n' m
      → Logged log laws k es n m
  Logged-from e l = record {
    held = l.held;
    below = λ j lt. l.below j lt ∙ e j;
    coherent = l.coherent;
  }

  commit_up_to-keeps :
      (c : ℕ) (n : RaftNode S)
      → ((commit_up_to c n).storage ≡ n.storage)
        × ((commit_up_to c n).log_metadata ≡ n.log_metadata)
  unfolding commit_up_to set_commit_index
  commit_up_to-keeps c n = ground arith

  pub accept_entries-Logged :
      (from : ℕ) (msg : AppendEntries) (payload : List ℕ) (n : RaftNode S)
      → is_leader n ≡ false
      → IsBatch msg payload
      → IsCoherent log laws n
      → n.outbox ≢ (accept_entries from msg payload n).1.outbox
      → Batched msg payload n (accept_entries from msg payload n).1
  unfolding accept_entries send_message
  accept_entries-Logged from msg payload n h b c =
      bind_rule (λ _ m. n.outbox ≢ m.outbox → Batched msg payload n m)
        (apply_append_entries msg payload)
        (λ _.
          modify (commit_up_to msg.leader_commit)
          >> (get_node >>= λ m.
              send_message from (append_entries_resp (append_reply 1 m.cached_last_log.0 msg m))))
        n (λ _ _ f. absurd (f (sym (apply_append_entries-Keeps msg payload n h).outbox)))
        λ _ done _.
          let m = (apply_append_entries msg payload n).1 in
          let (s, a) = commit_up_to-keeps msg.leader_commit m in
          Logged-same s a (apply_append_entries-Logged log laws msg payload n h b.0 b.1 c done)

  -- The log holds the previous entry of the message: in the log itself, before its start, or at
  -- the tip that the node remembers where the log no longer answers.
  abbrev pub PrevHeld : AppendEntries → RaftNode S → Type 0
  PrevHeld msg n =
      (log n.storage msg.prev_log_index ≡ some msg.prev_log_term)
      ⊎ ((msg.prev_log_index ≡ 0) ⊎ (n.cached_last_log ≡ (msg.prev_log_index, msg.prev_log_term)))

  prev_matches-PrevHeld :
      (msg : AppendEntries) (n : RaftNode S)
      → IsCoherent log laws n
      → (prev_matches msg.prev_log_index msg.prev_log_term n).0 ≡ ok true
      → PrevHeld msg n
  unfolding prev_matches
  prev_matches-PrevHeld msg n c e =
      elim (Option-cases (get_term n.log_metadata msg.prev_log_index)) [
        | inr (t, a) ↦ inl (c.1 msg.prev_log_index t a ∙ ap some (ground (arith, a, e)))
        | inl a ↦ elim (Bool-cases (msg.prev_log_index == 0)) [
          | inl z ↦ inr (inl (ground (arith, z)))
          | inr z ↦ elim (Result-cases (st.term_at n.storage msg.prev_log_index)) [
            | inl (x, p) ↦ absurd (ground (arith, a, z, p, e))
            | inr (none, p) ↦ inr (inr (ground (arith, a, z, p, e)))
            | inr (some t, p) ↦ inl (
                sym (laws.term_at_log n.storage msg.prev_log_index (some t) p)
                ∙ ap some (ground (arith, a, z, p, e)))
          ]
        ]
      ]

  -- A refusal is no success.
  pub refused :
      (from hint : ℕ) (msg : AppendEntries) (n : RaftNode S)
      → Accepts from n (reject_entries from msg hint n).1
      → ⊥
  unfolding reject_entries append_reply send_message
  refused from hint msg n (r, e, one) =
      let same : ◌≡◌ {A = ℕ × RaftMessage} (from, append_entries_resp (append_reply 0 hint msg n))
          (from, append_entries_resp r) =
        snoc-injective n.outbox e in
      ground (arith, same, one)

  decided :
      (ok? : Bool) (from hint : ℕ) (msg : AppendEntries) (payload : List ℕ) (n : RaftNode S)
      → is_leader n ≡ false
      → IsBatch msg payload
      → IsCoherent log laws n
      → (ok? ≡ true → PrevHeld msg n)
      → let m =
          ((if ok? then accept_entries from msg payload else reject_entries from msg hint) n).1 in
        Accepts from n m → PrevHeld msg n × Batched msg payload n m
  decided true from hint msg payload n h b c p (r, e, one) = (
    p refl,
    accept_entries-Logged from msg payload n h b c
        (λ same. snoc-ne n.outbox (from, append_entries_resp r) (same ∙ e)),
  )
  decided false from hint msg payload n h b c p a = absurd (refused from hint msg n a)

  pub check_entries-Logged :
      (from : ℕ) (msg : AppendEntries) (payload : List ℕ) (n : RaftNode S)
      → is_leader n ≡ false
      → IsBatch msg payload
      → IsCoherent log laws n
      → Accepts from n (check_entries from msg payload n).1
      → PrevHeld msg n × Batched msg payload n (check_entries from msg payload n).1
  unfolding check_entries
  check_entries-Logged from msg payload n h b c =
      let same = prev_matches-node msg.prev_log_index msg.prev_log_term n in
      bind_rule (λ _ m. Accepts from n m → PrevHeld msg n × Batched msg payload n m)
        (prev_matches msg.prev_log_index msg.prev_log_term)
        (λ ok?. get_node >>= λ m.
          if ok?
          then accept_entries from msg payload
          else reject_entries from msg (min m.cached_last_log.0 (msg.prev_log_index - 1)))
        n
        (λ _ _ (r, e, _).
          absurd
            (snoc-ne n.outbox (from, append_entries_resp r) (ap (λ m. m.outbox) (sym same) ∙ e)))
        λ ok? read. rw same (
          decided ok? from (min n.cached_last_log.0 (msg.prev_log_index - 1)) msg payload n h b c
            (λ t. prev_matches-PrevHeld msg n c (read ∙ ap ok t)))

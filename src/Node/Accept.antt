-- ===== src/Node/Accept.antt =====
-- The handler of an append as a whole: what a reply with success says of the log behind it.
use arbitro_raft.Base.{
  ℕ, ◌≡◌, refl, sym, ap, ◌∙◌, List, [], ◌∷◌, ◌++◌, Option, none, ltb, arith, inl, inr, Bool-cases,
}
use arbitro_raft.Types.{HardState}
use arbitro_raft.Storage.{RaftStorage}
use arbitro_raft.Wire.{AppendEntries, append_entries_resp}
use arbitro_raft.Node.{RaftNode, current_term, when, step_down, demote_to_follower_keep_term}
use arbitro_raft.Node.Rules.{bind_rule}
use arbitro_raft.Node.Append.{check_entries, follow, handle_append_entries}
use arbitro_raft.Node.Log.{IsLog, IsCoherent, Coherent-log}
use arbitro_raft.Node.Vote.{snoc-ne}
use arbitro_raft.Node.Success.{
  Batched, IsBatch, PrevHeld, Accepts, Logged-from, check_entries-Logged, refused,
}

module _ {S : Type 0} ⦃st : RaftStorage S⦄ (log : S → ℕ → Option ℕ) (laws : IsLog st log) where
  step_down-parts :
      (t : ℕ) (n : RaftNode S)
      → let m = (step_down t n).1 in
        (m.storage
          ≡ (st.save_hard_state n.storage (record { current_term = t; voted_for = none })).1)
        × (m.log_metadata ≡ n.log_metadata)
        × (m.outbox ≡ n.outbox)
        × (m.cached_last_log ≡ n.cached_last_log)
  unfolding step_down demote_to_follower_keep_term
  step_down-parts t n = ground arith

  -- The two nodes have the same log, cache, outbox and tip.
  abbrev SameLog : RaftNode S → RaftNode S → Type 0
  SameLog n m =
      ((j : ℕ) → log m.storage j ≡ log n.storage j)
      × (m.log_metadata ≡ n.log_metadata)
      × (m.outbox ≡ n.outbox)
      × (m.cached_last_log ≡ n.cached_last_log)

  raised : (t : ℕ) (n : RaftNode S) → SameLog n (when (ltb (current_term n) t) (step_down t) n).1
  raised t n = elim (Bool-cases (ltb (current_term n) t)) [
    | inl e ↦
        let h : HardState = record { current_term = t; voted_for = none } in
        let (s, a, o, l) = step_down-parts t n in
        rw (e, when) (λ j. ap (λ x. log x j) s ∙ laws.save_log n.storage h j, a, o, l)
    | inr e ↦ rw (e, when) (λ j. refl, refl, refl, refl)
  ]

  followed :
      (from now : ℕ) (msg : AppendEntries) (payload : List ℕ) (n m : RaftNode S)
      → IsBatch msg payload
      → IsCoherent log laws n
      → SameLog n m
      → Accepts from n (check_entries from msg payload (follow msg.leader_id now m)).1
      → PrevHeld log laws msg n
        × Batched log laws msg payload n
            (check_entries from msg payload (follow msg.leader_id now m)).1
  unfolding follow
  followed from now msg payload n m b c (s, a, o, l) (r, e, one) =
      let f = follow msg.leader_id now m in
      let c' : IsCoherent log laws f =
        rw a (Coherent-log n.log_metadata (log n.storage) (log m.storage) s c) in
      let (p, q) =
        check_entries-Logged log laws from msg payload f refl b c'
          (r, e ∙ ap (λ box. box ++ (from, append_entries_resp r) ∷ []) (sym o), one) in
      (
        elim p [
          | inl x ↦ inl (sym (s msg.prev_log_index) ∙ x)
          | inr (inl z) ↦ inr (inl z)
          | inr (inr z) ↦ inr (inr (sym l ∙ z))
        ],
        Logged-from log laws s q,
      )

  -- A node whose cache answers as its log, and that answers an append of entries at consecutive
  -- indexes with success, had the previous entry of the message, and now has every entry of the
  -- message in its log, the log up to the previous entry as it was, and a cache that answers as
  -- its log.
  pub handle_append_entries-Logged :
      (now from : ℕ) (msg : AppendEntries) (payload : List ℕ) (n : RaftNode S)
      → IsBatch msg payload
      → IsCoherent log laws n
      → Accepts from n (handle_append_entries now from msg payload n).1
      → PrevHeld log laws msg n
        × Batched log laws msg payload n (handle_append_entries now from msg payload n).1
  unfolding handle_append_entries
  handle_append_entries-Logged now from msg payload n b c =
      elim (Bool-cases (ltb msg.term (current_term n))) [
        | inl old ↦
            rw (old, handle_append_entries)
              (λ a. absurd (refused log laws from n.cached_last_log.0 msg n a))
        | inr new ↦
            let up = when (ltb (current_term n) msg.term) (step_down msg.term) in
            let (s, a, o, l) = raised msg.term n in
            rw (new, handle_append_entries)
              (bind_rule
                (λ _ m.
                  Accepts from n m → PrevHeld log laws msg n × Batched log laws msg payload n m)
                up (λ _ m. check_entries from msg payload (follow msg.leader_id now m)) n
                (λ _ _ (r, e, _).
                  absurd (snoc-ne n.outbox (from, append_entries_resp r) (sym o ∙ e)))
                (λ _ _. followed from now msg payload n (up n).1 b c (s, a, o, l)))
      ]

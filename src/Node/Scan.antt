-- ===== src/Node/Scan.antt =====
-- The loop of `apply_append_entries` that compares a batch with the log, and the append behind it.
use arbitro_raft.Base.{
  ℕ, suc, ◌≤◌, ◌<◌, ◌≡◌, refl, ◌∙◌, Bool, true, false, List, [], ◌∷◌, Option, none, some, ltb, ◌==◌,
  arith, if◌then◌else◌, saturating_add, u64_max,
}
use arbitro_raft.Types.{LogEntry}
use arbitro_raft.Error.{RaftError, ok}
use arbitro_raft.Storage.{RaftStorage}
use arbitro_raft.Arena.{truncate_suffix}
use arbitro_raft.Arena.Coherence.{step-Coherent, truncates}
use arbitro_raft.Node.{RaftNode, M, pure, fail, ◌>>=◌, ◌>>◌, storage_truncate}
use arbitro_raft.Node.Rules.{bind_rule}
use arbitro_raft.Node.Append.{local_term, compare_entry, scan_entries}
use arbitro_raft.Node.Keeps.{local_term-node}
use arbitro_raft.Node.Log.{
  overlay, Holds, Contiguous, IsLog, overlay-below, overlay-Holds, Coherent-log, IsCoherent,
  local_term-log,
}

module _ {S : Type 0} ⦃st : RaftStorage S⦄ (log : S → ℕ → Option ℕ) (laws : IsLog st log) where
  -- What the loop leaves: the cache still answers as the log, the batch is in the log once the
  -- chosen entries are written, and the log below the batch is as it was.
  pub record Scanned (k : ℕ) (es : List LogEntry) (n : RaftNode S) (new : List LogEntry)
      (m : RaftNode S) : Type 0 where
    pub coherent : IsCoherent log laws m
    pub held : Holds (overlay new (log m.storage)) es
    pub below : (j : ℕ) → j < k → overlay new (log m.storage) j ≡ log n.storage j
    pub from : (i : ℕ) × Contiguous i new

  truncate_log-ok :
      (from : ℕ) (n : RaftNode S) (j : ℕ)
      → (storage_truncate from n).0 ≡ ok tt
      → log (storage_truncate from n).1.storage j ≡ (if ltb j from then log n.storage j else none)
  unfolding storage_truncate
  truncate_log-ok from n j e = ground (arith, laws.truncate_log n.storage from j)

  truncate-IsCoherent :
      (from : ℕ) (n : RaftNode S)
      → from ≤ u64_max
      → IsCoherent log laws n
      → (storage_truncate from n).0 ≡ ok tt
      → IsCoherent log laws (storage_truncate from n).1
  unfolding storage_truncate
  truncate-IsCoherent from n h c e =
      let cut : (storage_truncate from n).1.log_metadata ≡ truncate_suffix n.log_metadata from =
        ground (arith, e) in
      rw cut (
        Coherent-log (truncate_suffix n.log_metadata from) _ _ (λ j. truncate_log-ok from n j e)
          (step-Coherent n.log_metadata (log n.storage) (truncates from) h c))

  -- Where the loop stops, the entries from there on are chosen.
  stopped :
      (k : ℕ) (e : LogEntry) (es : List LogEntry) (n m : RaftNode S)
      → Contiguous k (e ∷ es)
      → IsCoherent log laws m
      → ((j : ℕ) → j < k → log m.storage j ≡ log n.storage j)
      → Scanned k (e ∷ es) n (e ∷ es) m
  stopped k e es n m c h b = record {
    coherent = h;
    held = overlay-Holds (e ∷ es) k (log m.storage) c;
    below = λ j lt. overlay-below (e ∷ es) k j (log m.storage) c lt ∙ b j lt;
    from = (k, c);
  }

  passed :
      (k : ℕ) (e : LogEntry) (es new : List LogEntry) (n m : RaftNode S)
      → e.index ≡ k
      → log n.storage e.index ≡ some e.term
      → Scanned (suc k) es n new m
      → Scanned k (e ∷ es) n new m
  passed k e es new n m i t s = record {
    coherent = s.coherent;
    held = (s.below e.index (omega (arith, i)) ∙ t, s.held);
    below = λ j lt. s.below j (omega arith);
    from = s.from;
  }

  chosen :
      (x : LogEntry) (es : List LogEntry) (k : ℕ) (n : RaftNode S) {m : RaftNode S}
      (new : List LogEntry)
      → Contiguous k (x ∷ es)
      → IsCoherent log laws m
      → ((j : ℕ) → j < k → log m.storage j ≡ log n.storage j)
      → new ≡ x ∷ es
      → Scanned k (x ∷ es) n new m
  chosen x es k n {m = m} new c h b e = rw e (stopped k x es n m c h b)

  conflicting :
      (x : LogEntry) (es : List LogEntry) (k : ℕ) (n : RaftNode S) (new : List LogEntry)
      → Contiguous k (x ∷ es)
      → IsCoherent log laws n
      → ((storage_truncate x.index >> pure (x ∷ es)) n).0 ≡ ok new
      → Scanned k (x ∷ es) n new ((storage_truncate x.index >> pure (x ∷ es)) n).1
  conflicting x es k n new c h =
      bind_rule (λ r m. r ≡ ok new → Scanned k (x ∷ es) n new m) (storage_truncate x.index)
        (λ _. pure (x ∷ es)) n (λ _ _ f. absurd (ground (arith, f)))
        λ _ done f.
          chosen x es k n new c (truncate-IsCoherent x.index n (omega (arith, c.0, c.1)) h done)
            (λ j lt. truncate_log-ok x.index n j done ∙ ground (arith, c.0)) (ground (arith, f))

  -- The test of the terms, on its outcome.
  compared :
      (b : Bool) (x : LogEntry) (es : List LogEntry) (others : M S (List LogEntry)) (k : ℕ)
      (n : RaftNode S) (new : List LogEntry)
      → Contiguous k (x ∷ es)
      → IsCoherent log laws n
      → (b ≡ true → log n.storage x.index ≡ some x.term)
      → ((others n).0 ≡ ok new → Scanned (suc k) es n new (others n).1)
      → ((if b then others else (storage_truncate x.index >> pure (x ∷ es))) n).0 ≡ ok new
      → Scanned k
          (x ∷ es)
          n
          new
          ((if b then others else (storage_truncate x.index >> pure (x ∷ es))) n).1
  compared true x es others k n new c h t rest e =
      passed k x es new n (others n).1 c.0 (t refl) (rest e)
  compared false x es others k n new c h t rest e = conflicting x es k n new c h e

  compare_entry-Scanned :
      (x : LogEntry) (es : List LogEntry) (others : M S (List LogEntry)) (k : ℕ) (n : RaftNode S)
      (new : List LogEntry) (o : Option ℕ)
      → Contiguous k (x ∷ es)
      → IsCoherent log laws n
      → o ≡ log n.storage x.index
      → ((others n).0 ≡ ok new → Scanned (suc k) es n new (others n).1)
      → (compare_entry x es others o n).0 ≡ ok new
      → Scanned k (x ∷ es) n new (compare_entry x es others o n).1
  unfolding compare_entry
  compare_entry-Scanned x es others k n new none c h o rest e =
      chosen x es k n new c h (λ j lt. refl) (ground (arith, e))
  compare_entry-Scanned x es others k n new (some t) c h o rest e =
      compared (t == x.term) x es others k n new c h (λ same. ground (arith, o, same)) rest e

  -- The test of the index, on its outcome.
  indexed :
      (b : Bool) (x : LogEntry) (es : List LogEntry) (others : M S (List LogEntry)) (k : ℕ)
      (n : RaftNode S) (new : List LogEntry) (e : RaftError)
      → Contiguous k (x ∷ es)
      → IsCoherent log laws n
      → ((others n).0 ≡ ok new → Scanned (suc k) es n new (others n).1)
      → ((if b then (local_term x.index >>= compare_entry x es others) else fail e) n).0 ≡ ok new
      → Scanned k
          (x ∷ es)
          n
          new
          ((if b then (local_term x.index >>= compare_entry x es others) else fail e) n).1
  indexed true x es others k n new e c h rest f =
      bind_rule (λ r m. r ≡ ok new → Scanned k (x ∷ es) n new m) (local_term x.index)
        (compare_entry x es others) n (λ _ _ f. absurd (ground (arith, f)))
        (λ o read. rw (local_term-node x.index n) (
          compare_entry-Scanned x es others k n new o c h
            (local_term-log log laws x.index n o h read) rest))
        f
  indexed false x es others k n new e c h rest f = absurd (ground (arith, f))

  -- On a batch at consecutive indexes and a node whose cache answers as its log, a run of the loop
  -- that succeeds leaves what `Scanned` says.
  pub scan_entries-Scanned :
      (es : List LogEntry) (k : ℕ) (n : RaftNode S) (new : List LogEntry)
      → Contiguous k es
      → IsCoherent log laws n
      → (scan_entries k es n).0 ≡ ok new
      → Scanned k es n new (scan_entries k es n).1
  unfolding scan_entries
  scan_entries-Scanned [] k n new c h e =
      let empty : new ≡ [] = ground (arith, e) in
      rw empty (record { coherent = h; held = tt; below = λ j lt. refl; from = (k, tt) })
  scan_entries-Scanned (x ∷ es) k n new c h e =
      let next : saturating_add k 1 ≡ suc k = omega (arith, c.1) in
      indexed (x.index == k) x es (scan_entries (saturating_add k 1) es) k n new _ c h
        (rw next (scan_entries-Scanned es (suc k) n new c.2 h)) e

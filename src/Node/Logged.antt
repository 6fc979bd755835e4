-- ===== src/Node/Logged.antt =====
-- The log behind `apply_append_entries` and `handle_append_entries`: what a follower holds after a
-- batch that it accepted.
use arbitro_raft.Base.{
  ℕ, suc, ◌<◌, ◌≡◌, refl, ap, ◌∙◌, false, List, [], ◌∷◌, Option, none, some, arith, saturating_add,
  u64_max,
}
use arbitro_raft.Types.{LogEntry}
use arbitro_raft.Error.{ok}
use arbitro_raft.Storage.{RaftStorage}
use arbitro_raft.Membership.{ConfigChangeEntry}
use arbitro_raft.Wire.{AppendEntries}
use arbitro_raft.Wire.Entries.{entry_iter}
use arbitro_raft.Node.{RaftNode, is_leader}
use arbitro_raft.Node.Rules.{bind_rule}
use arbitro_raft.Node.Membership.{
  adopt, apply_config_change, count_config_change, reconcile_leader_progress_with_config,
}
use arbitro_raft.Node.Keeps.{scan_entries-Keeps}
use arbitro_raft.Node.Append.{
  cache_entries, latest_config, note_appended, activate, append_new, scan_entries,
  apply_append_entries,
}
use arbitro_raft.Node.Log.{
  overlay, Holds, Contiguous, IsLog, Coherent-log, IsCoherent, cache_entries-Coherent,
}
use arbitro_raft.Node.Scan.{Scanned, scan_entries-Scanned}

Holds-log :
    (es : List LogEntry) (l l' : ℕ → Option ℕ) → ((j : ℕ) → l' j ≡ l j) → Holds l es → Holds l' es
Holds-log [] l l' e h = tt
Holds-log (x ∷ es) l l' e h = (e x.index ∙ h.0, Holds-log es l l' e h.1)

module _ {S : Type 0} ⦃st : RaftStorage S⦄ where
  -- A follower that adopts a configuration writes nothing.
  activate-storage :
      (c : Option ConfigChangeEntry) (n : RaftNode S)
      → is_leader n ≡ false
      → ((activate c n).1.storage ≡ n.storage) × ((activate c n).1.log_metadata ≡ n.log_metadata)
  unfolding activate apply_config_change adopt count_config_change
      reconcile_leader_progress_with_config
  activate-storage none n h = (refl, refl)
  activate-storage (some entry) n h = ground arith

  note_appended-keeps :
      (es : List LogEntry) (n : RaftNode S)
      → ((note_appended es n).storage ≡ n.storage)
        × ((note_appended es n).log_metadata ≡ cache_entries n.log_metadata es)
        × (is_leader (note_appended es n) ≡ is_leader n)
  unfolding note_appended
  note_appended-keeps es n = ground arith

  -- The storage and the cache after the second block.
  append_new-storage :
      (e : LogEntry) (es : List LogEntry) (n : RaftNode S)
      → is_leader n ≡ false
      → (append_new (e ∷ es) n).0 ≡ ok tt
      → ((st.append_entries n.storage (e ∷ es)).0 ≡ ok tt)
        × ((append_new (e ∷ es) n).1.storage ≡ (st.append_entries n.storage (e ∷ es)).1)
        × ((append_new (e ∷ es) n).1.log_metadata ≡ cache_entries n.log_metadata (e ∷ es))
  unfolding append_new
  append_new-storage e es n h r =
      let stored : RaftNode S = record n { storage = (st.append_entries n.storage (e ∷ es)).1 } in
      let noted = note_appended (e ∷ es) stored in
      let (a, b, c) = note_appended-keeps (e ∷ es) stored in
      ground (arith, r, a, b, c, activate-storage (latest_config (e ∷ es)) noted)

module _ {S : Type 0} ⦃st : RaftStorage S⦄ (log : S → ℕ → Option ℕ) (laws : IsLog st log) where
  -- After the batch `es` from index `k` on: every entry of it is in the log, the log below `k` is
  -- as it was, and the cache answers as the log.
  pub record Logged (k : ℕ) (es : List LogEntry) (n m : RaftNode S) : Type 0 where
    pub held : Holds (log m.storage) es
    pub below : (j : ℕ) → j < k → log m.storage j ≡ log n.storage j
    pub coherent : IsCoherent log laws m

  append_new-Logged :
      (k : ℕ) (es new : List LogEntry) (n m : RaftNode S)
      → is_leader m ≡ false
      → Scanned log laws k es n new m
      → (append_new new m).0 ≡ ok tt
      → Logged k es n (append_new new m).1
  unfolding append_new
  append_new-Logged k es [] n m h s r = record {
    held = s.held;
    below = s.below;
    coherent = s.coherent;
  }
  append_new-Logged k es (x ∷ xs) n m h s r =
      let (done, at, meta) = append_new-storage x xs m h r in
      let same : (j : ℕ)
          → log (append_new (x ∷ xs) m).1.storage j ≡ overlay (x ∷ xs) (log m.storage) j =
        λ j. ap (λ s'. log s' j) at ∙ laws.append_log m.storage (x ∷ xs) j done in
      let cached =
        cache_entries-Coherent (x ∷ xs) s.from.0 m.log_metadata (log m.storage) s.from.1
          s.coherent in
      record {
        held =
            Holds-log es (overlay (x ∷ xs) (log m.storage)) (log (append_new (x ∷ xs) m).1.storage)
              same s.held;
        below = λ j lt. same j ∙ s.below j lt;
        coherent = rw meta (Coherent-log (cache_entries m.log_metadata (x ∷ xs)) _ _ same cached);
      }

  -- A follower whose cache answers as its log, and that applies a batch of entries at consecutive
  -- indexes behind the previous entry without an error, has every entry of the batch in its log,
  -- has lost nothing up to the previous entry, and keeps a cache that answers as its log.
  pub apply_append_entries-Logged :
      (msg : AppendEntries) (payload : List ℕ) (n : RaftNode S)
      → is_leader n ≡ false
      → msg.prev_log_index < u64_max
      → Contiguous (suc msg.prev_log_index) (entry_iter payload msg.entry_count)
      → IsCoherent log laws n
      → (apply_append_entries msg payload n).0 ≡ ok tt
      → Logged
          (suc msg.prev_log_index)
          (entry_iter payload msg.entry_count)
          n
          (apply_append_entries msg payload n).1
  unfolding apply_append_entries
  apply_append_entries-Logged msg payload n h small c q r =
      let es = entry_iter payload msg.entry_count in
      let k = suc msg.prev_log_index in
      let next : saturating_add msg.prev_log_index 1 ≡ k = omega (arith, small) in
      bind_rule (λ o m. o ≡ ok tt → Logged k es n m)
        (scan_entries (saturating_add msg.prev_log_index 1) es) append_new n
        (λ _ _ f. absurd (ground (arith, f)))
        (λ new done f.
          let kept = scan_entries-Keeps es (saturating_add msg.prev_log_index 1) n in
          append_new-Logged k es new n (scan_entries (saturating_add msg.prev_log_index 1) es n).1
            (ground (arith, h, kept.soft_state))
            (scanned es k (saturating_add msg.prev_log_index 1) n new next c q done) f)
        r
    where
      scanned :
          (es : List LogEntry) (k k' : ℕ) (n : RaftNode S) (new : List LogEntry)
          → k' ≡ k
          → Contiguous k es
          → IsCoherent log laws n
          → (scan_entries k' es n).0 ≡ ok new
          → Scanned log laws k es n new (scan_entries k' es n).1
      scanned es k k' n new e c q = rw e (scan_entries-Scanned log laws es k n new c q)

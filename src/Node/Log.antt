-- ===== src/Node/Log.antt =====
-- The log under a node, and what `apply_append_entries` of src/api/node/replication/handler.rs
-- makes of it.
use arbitro_raft.Base.{
  ℕ, suc, ◌<◌, ◌≡◌, refl, ◌∙◌, List, [], ◌∷◌, Option, none, some, ltb, ◌==◌, arith, if◌then◌else◌,
  u64_max, inl, inr, Option-cases,
}
use arbitro_raft.Types.{LogEntry, HardState}
use arbitro_raft.Error.{ok}
use arbitro_raft.Storage.{RaftStorage}
use arbitro_raft.Arena.{LogMetadataArena, get_term}
use arbitro_raft.Arena.Coherence.{Coherent, step-Coherent, appends}
use arbitro_raft.Node.{RaftNode}
use arbitro_raft.Node.Append.{cache_entries, local_term}

-- The terms of a log after the entries are written, each at its index.
abbrev pub overlay : List LogEntry → (ℕ → Option ℕ) → ℕ → Option ℕ
overlay [] l j = l j
overlay (e ∷ es) l j = overlay es (λ i. if i == e.index then some e.term else l i) j

-- Each entry is in the log, at its index and with its term.
abbrev pub Holds : (ℕ → Option ℕ) → List LogEntry → Type 0
Holds l [] = Unit {0}
Holds l (e ∷ es) = (l e.index ≡ some e.term) × Holds l es

-- The entries stand at consecutive indexes from `k` on, all below `u64::MAX`.
abbrev pub Contiguous : ℕ → List LogEntry → Type 0
Contiguous k [] = Unit {0}
Contiguous k (e ∷ es) = (e.index ≡ k) × (k < u64_max) × Contiguous (suc k) es

-- The storage keeps a log: `log s` is the term at each index of the state `s`. A read that succeeds
-- answers from it, an append that succeeds writes the entries, a cut that succeeds removes what
-- stands at `from` and above, and a save of the hard state leaves the log alone.
pub record IsLog {S : Type 0} (st : RaftStorage S) (log : S → ℕ → Option ℕ) : Type 0 where
  pub term_at_log : (s : S) (i : ℕ) (o : Option ℕ) → st.term_at s i ≡ ok o → o ≡ log s i
  pub append_log :
      (s : S) (es : List LogEntry) (j : ℕ)
      → (st.append_entries s es).0 ≡ ok tt
      → log (st.append_entries s es).1 j ≡ overlay es (log s) j
  pub truncate_log :
      (s : S) (from j : ℕ)
      → (st.truncate_suffix s from).0 ≡ ok tt
      → log (st.truncate_suffix s from).1 j ≡ (if ltb j from then log s j else none)
  pub save_log : (s : S) (h : HardState) (j : ℕ) → log (st.save_hard_state s h).1 j ≡ log s j

pub overlay-below :
    (es : List LogEntry) (k j : ℕ) (l : ℕ → Option ℕ)
    → Contiguous k es
    → j < k
    → overlay es l j ≡ l j
overlay-below [] k j l c h = refl
overlay-below (e ∷ es) k j l c h =
    overlay-below es (suc k) j (λ i. if i == e.index then some e.term else l i) c.2 (omega arith)
    ∙ ground (arith, c.0)

pub overlay-Holds :
    (es : List LogEntry) (k : ℕ) (l : ℕ → Option ℕ) → Contiguous k es → Holds (overlay es l) es
overlay-Holds [] k l c = tt
overlay-Holds (e ∷ es) k l c =
    let l' : ℕ → Option ℕ = λ i. if i == e.index then some e.term else l i in
    (
      overlay-below es (suc k) e.index l' c.2 (omega (arith, c.0)) ∙ ground arith,
      overlay-Holds es (suc k) l' c.2,
    )

pub Coherent-log :
    (a : LogMetadataArena) (l l' : ℕ → Option ℕ)
    → ((j : ℕ) → l' j ≡ l j)
    → Coherent a l
    → Coherent a l'
Coherent-log a l l' e (v, g) = (v, λ j t q. e j ∙ g j t q)

-- The cache follows the log over the entries that are appended.
pub cache_entries-Coherent :
    (es : List LogEntry) (k : ℕ) (a : LogMetadataArena) (l : ℕ → Option ℕ)
    → Contiguous k es
    → Coherent a l
    → Coherent (cache_entries a es) (overlay es l)
unfolding cache_entries
cache_entries-Coherent [] k a l c h = h
cache_entries-Coherent (e ∷ es) k a l c h =
    cache_entries-Coherent es (suc k) _ _ c.2
      (step-Coherent a l (appends e.index e.term) (omega (arith, c.0)) h)

module _ {S : Type 0} ⦃st : RaftStorage S⦄ (log : S → ℕ → Option ℕ) (laws : IsLog st log) where
  -- The cache of the node answers as its log.
  abbrev pub IsCoherent : RaftNode S → Type 0
  IsCoherent n = Coherent n.log_metadata (log n.storage)

  pub local_term-log :
      (i : ℕ) (n : RaftNode S) (o : Option ℕ)
      → IsCoherent n
      → (local_term i n).0 ≡ ok o
      → o ≡ log n.storage i
  unfolding local_term
  local_term-log i n o h e = elim (Option-cases (get_term n.log_metadata i)) [
    | inl a ↦ laws.term_at_log n.storage i o (ground (arith, a, e))
    | inr (t, a) ↦ ground (arith, a, e, h.1 i t a)
  ]

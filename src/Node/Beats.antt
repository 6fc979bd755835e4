-- ===== src/Node/Beats.antt =====
-- What the round of bare heartbeats sends, to whom, and what it leaves of the node.
use arbitro_raft.Base.{
  ℕ, ◌-◌, ◌<◌, ◌≡◌, ◌≢◌, refl, sym, Bool, true, false, not, ◌&&◌, List, [], ◌∷◌, ◌++◌, Option, none,
  some, ◌==◌, arith, Bool-cases, Option-cases, inl, inr, ◌⊎◌, retain, u64_max,
}
use arbitro_raft.Error.{RaftError, Result, ok, err}
use arbitro_raft.Storage.{RaftStorage}
use arbitro_raft.Arena
use arbitro_raft.Arena.{LogMetadataArena, get_term}
use arbitro_raft.Arena.Coherence.{Coherent, step-Coherent, appends}
use arbitro_raft.PeerMap.{get, PeerProgress}
use arbitro_raft.Wire.{RaftMessage, AppendEntries, append_entries_vectored}
use arbitro_raft.Node.{RaftNode}
use arbitro_raft.Node.Vote.{Result-cases}
use arbitro_raft.Node.Log.{IsLog, IsCoherent, Coherent-log}
use arbitro_raft.Node.Commit.{term_at}

module _ {S : Type 0} ⦃st : RaftStorage S⦄ (log : S → ℕ → Option ℕ) (laws : IsLog st log) where
  -- The term at an index: 0 before the log, that of the tip or of the snapshot boundary that the
  -- node remembers, or that of the entry in the log.
  abbrev pub TermAt : RaftNode S → ℕ → ℕ → Type 0
  TermAt n i t =
      ((i ≡ 0) × (t ≡ 0))
      ⊎ ((n.cached_last_log ≡ (i, t))
          ⊎ ((n.snapshot_boundary ≡ (i, t)) ⊎ (log n.storage i ≡ some t)))

  -- The node remembers no term at an index, and the storage does not tell it.
  abbrev pub IsUnreadable : RaftNode S → ℕ → Type 0
  IsUnreadable n i =
      (i ≢ 0)
      × (i ≢ n.cached_last_log.0)
      × (i ≢ n.snapshot_boundary.0)
      × (((e : RaftError) × (st.term_at n.storage i ≡ err e)) ⊎ (st.term_at n.storage i ≡ ok none))

  -- A frame without entries for a peer: the term, the identity, the commit index and the probe of
  -- the node, and a previous entry right before the next index of the peer, with its term.
  abbrev pub IsBeat : RaftNode S → ℕ → AppendEntries → Type 0
  IsBeat n peer req =
      (p : PeerProgress) × (get n.peer_progress peer ≡ some p)
      × (req.prev_log_index ≡ p.next_index - 1)
      × TermAt n req.prev_log_index req.prev_log_term
      × (req.term ≡ n.hard_state.current_term)
      × (req.leader_id ≡ n.config.node_id)
      × (req.leader_commit ≡ n.soft_state.commit_index)
      × (req.pad ≡ n.read_probe_seq)
      × (req.entry_count ≡ 0)

  -- No frame can be built: the peer is not tracked, the term of its previous entry is not told, or
  -- its backlog cannot be read.
  abbrev pub IsUnsendable : RaftNode S → ℕ → Type 0
  IsUnsendable n peer =
      (get n.peer_progress peer ≡ none)
      ⊎ ((p : PeerProgress) × (get n.peer_progress peer ≡ some p)
          × (IsUnreadable n (p.next_index - 1)
              ⊎ ((e : RaftError) × (st.read_entries n.storage p.next_index u64_max ≡ err e))))

  -- The frames to the targets, in their order; a target is left out only when no frame can be built.
  abbrev pub IsRound : RaftNode S → List ℕ → List (ℕ × RaftMessage) → Type 0
  IsRound n [] beats = beats ≡ []
  IsRound n (peer ∷ peers) beats =
      ((req : AppendEntries) × (others : List (ℕ × RaftMessage)) × (beats
          ≡ (peer, append_entries_vectored req []) ∷ others)
        × IsBeat n peer req
        × IsRound n peers others)
      ⊎ (IsUnsendable n peer × IsRound n peers beats)

  -- The voters and the learners, without the node itself and without one other.
  abbrev pub others_than : ℕ → RaftNode S → List ℕ
  others_than skip n =
      retain (λ p. not (p == n.config.node_id) && not (p == skip))
        (n.config.peers ++ n.config.learners)

  -- After the round: a node that does not lead is as it was, and a leader has sent its frames, with
  -- nothing else changed but the cache, which answers as the log.
  abbrev pub AfterRound : Bool → ℕ → RaftNode S → RaftNode S → Type 0
  AfterRound false skip n m = m ≡ n
  AfterRound true skip n m =
      (arena : LogMetadataArena) × (beats : List (ℕ × RaftMessage)) × Coherent arena (log n.storage)
      × (m ≡ record n { log_metadata = arena; outbox = n.outbox ++ beats })
      × IsRound n (others_than skip n) beats

  -- Only the cache of terms differs, and it answers as the log.
  abbrev pub Recached : RaftNode S → RaftNode S → Type 0
  Recached n m =
      (arena : LogMetadataArena) × Coherent arena (log n.storage)
      × (m ≡ record n { log_metadata = arena })

  abbrev pub TermOf : RaftNode S → ℕ → Result ℕ → Type 0
  TermOf n i (ok t) = TermAt n i t
  TermOf n i (err e) = IsUnreadable n i

  abbrev pub PrevOf : RaftNode S → ℕ → Result (ℕ × ℕ × ℕ) → Type 0
  PrevOf n peer (ok (prev_index, prev_term, next_index)) =
      (p : PeerProgress) × (get n.peer_progress peer ≡ some p)
      × (prev_index ≡ p.next_index - 1)
      × (next_index ≡ p.next_index)
      × TermAt n prev_index prev_term
  PrevOf n peer (err e) = IsUnsendable n peer

  abbrev pub BuiltOf : RaftNode S → ℕ → Result (Option AppendEntries) → Type 0
  BuiltOf n peer (ok (some req)) = IsBeat n peer req
  BuiltOf n peer (ok none) = ⊥
  BuiltOf n peer (err e) = IsUnsendable n peer

  -- Caching the term that the log has keeps the cache coherent.
  cache-Coherent :
      (i t : ℕ) (n : RaftNode S)
      → i < u64_max
      → IsCoherent log laws n
      → log n.storage i ≡ some t
      → Coherent (Arena.append n.log_metadata i t) (log n.storage)
  cache-Coherent i t n h c e =
      Coherent-log _ _ _ (λ j. ground (arith, e))
        (step-Coherent n.log_metadata (log n.storage) (appends i t) h c)

  pub term_at-told :
      (i : ℕ) (n : RaftNode S)
      → i < u64_max
      → IsCoherent log laws n
      → Recached n (term_at i n).1 × TermOf n i (term_at i n).0
  unfolding term_at
  term_at-told i n h c = elim (Bool-cases (i == 0)) [
    | inl a ↦ rw (term_at, a) ((n.log_metadata, c, refl), inl (ground (arith, a), refl))
    | inr a ↦ elim (Bool-cases (i == n.cached_last_log.0)) [
      | inl b ↦ rw (term_at, a, b) ((n.log_metadata, c, refl), inr (inl (ground (arith, b))))
      | inr b ↦ elim (Option-cases (get_term n.log_metadata i)) [
        | inr (t, g) ↦
            rw (term_at, a, b, g) ((n.log_metadata, c, refl), inr (inr (inr (c.1 i t g))))
        | inl g ↦ elim (Bool-cases (i == n.snapshot_boundary.0)) [
          | inl d ↦
              rw (term_at, a, b, g, d)
                ((n.log_metadata, c, refl), inr (inr (inl (ground (arith, d)))))
          | inr d ↦ elim (Result-cases (st.term_at n.storage i)) [
            | inl (e, x) ↦
                rw (term_at, a, b, g, d, x)
                  (
                    (n.log_metadata, c, refl),
                    (
                      λ z. ground (arith, a, z),
                      λ z. ground (arith, b, z),
                      λ z. ground (arith, d, z),
                      inl (e, x),
                    ),
                  )
            | inr (none, x) ↦
                rw (term_at, a, b, g, d, x)
                  (
                    (n.log_metadata, c, refl),
                    (
                      λ z. ground (arith, a, z),
                      λ z. ground (arith, b, z),
                      λ z. ground (arith, d, z),
                      inr x,
                    ),
                  )
            | inr (some t, x) ↦
                let told = sym (laws.term_at_log n.storage i (some t) x) in
                rw (term_at, a, b, g, d, x)
                  ((_, cache-Coherent i t n h c told, refl), inr (inr (inr told)))
          ]
        ]
      ]
    ]
  ]

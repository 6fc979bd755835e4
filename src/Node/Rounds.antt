-- ===== src/Node/Rounds.antt =====
-- The round of bare heartbeats of a node, frame by frame: src/api/node/replication/heartbeat.rs.
use arbitro_raft.Base.{
  ℕ, ◌-◌, ◌≤◌, ◌≡◌, refl, sym, ap, ◌∙◌, true, false, ◌&&◌, List, [], ◌∷◌, ◌++◌, Option, none, some,
  arith, Bool-cases, Option-cases, inl, inr, subst, u64_max,
}
use mathlib.Core.List.{append_assoc, append-nil}
use arbitro_raft.Error.{Result, ok, err}
use arbitro_raft.Storage.{RaftStorage}
use arbitro_raft.Arena.{LogMetadataArena}
use arbitro_raft.Arena.Coherence.{Coherent}
use arbitro_raft.PeerMap.{is_empty, get, PeerProgress}
use arbitro_raft.Wire.{RaftMessage, AppendEntries, append_entries_vectored}
use arbitro_raft.Node.{RaftNode, is_leader, from_storage}
use arbitro_raft.Node.Rules.{bind_rule}
use arbitro_raft.Node.Log.{IsLog, IsCoherent}
use arbitro_raft.Node.Commit.{term_at}
use arbitro_raft.Node.Beats.{Recached, TermOf, PrevOf, BuiltOf, IsRound, AfterRound, term_at-told}
use arbitro_raft.Node.Heartbeat.{
  ensure_leader_progress_initialized, send_built, heartbeat_targets, append_prev_for_peer,
  wire_behind, build_heartbeat_wire, send_bare_heartbeats, send_bare_heartbeats_except,
}

-- The indexes of a progress map are words.
abbrev pub AreWords : {S : Type 0} → RaftNode S → Type 0
AreWords n = (x : ℕ) (p : PeerProgress) → get n.peer_progress x ≡ some p → p.next_index ≤ u64_max

module _ {S : Type 0} ⦃st : RaftStorage S⦄ (log : S → ℕ → Option ℕ) (laws : IsLog st log) where
  append_prev_for_peer-told :
      (peer : ℕ) (n : RaftNode S)
      → AreWords n
      → IsCoherent log laws n
      → Recached log laws n (append_prev_for_peer peer n).1
        × PrevOf log laws n peer (append_prev_for_peer peer n).0
  unfolding append_prev_for_peer
  append_prev_for_peer-told peer n words c = elim (Option-cases (get n.peer_progress peer)) [
    | inl e ↦ rw (append_prev_for_peer, e) ((n.log_metadata, c, refl), inl e)
    | inr (p, e) ↦
        let i = p.next_index - 1 in
        let (cache, told) = term_at-told log laws i n (omega (arith, words peer p e)) c in
        rw (append_prev_for_peer, e)
          (bind_rule (λ r m. Recached log laws n m × PrevOf log laws n peer r) (term_at i) _ n
            (λ x r. (cache, inr (p, e, inl (subst (TermOf log laws n i) r told))))
            (λ t r. (cache, (p, e, refl, refl, subst (TermOf log laws n i) r told))))
  ]

  wire_behind-beat :
      (peer : ℕ) (n m : RaftNode S) (prev : ℕ × ℕ × ℕ)
      → Recached log laws n m
      → PrevOf log laws n peer (ok prev)
      → Recached log laws n (wire_behind prev m).1 × BuiltOf log laws n peer (wire_behind prev m).0
  unfolding wire_behind
  wire_behind-beat peer n m (i, t, next) (arena, c, same) (p, e, at, after, term) =
      bind_rule (λ r k. Recached log laws n k × BuiltOf log laws n peer r)
        (from_storage λ s. st.read_entries s next u64_max) _ m
        (λ x r. (
          (arena, c, same),
          inr (
            p,
            e,
            inr (
              x,
              ap (λ j. st.read_entries n.storage j u64_max) (sym after)
                  ∙ (ap (λ k. st.read_entries k.storage next u64_max) (sym same) ∙ r),
            ),
          ),
        ))
        (λ _ _. ((arena, c, same), rw same (p, e, at, term, refl, refl, refl, refl, refl)))

  build_heartbeat_wire-beat :
      (now peer : ℕ) (n : RaftNode S)
      → is_leader n ≡ true
      → is_empty n.peer_progress ≡ false
      → AreWords n
      → IsCoherent log laws n
      → Recached log laws n (build_heartbeat_wire now peer n).1
        × BuiltOf log laws n peer (build_heartbeat_wire now peer n).0
  unfolding build_heartbeat_wire ensure_leader_progress_initialized
  build_heartbeat_wire-beat now peer n lead filled words c =
      let (cache, told) = append_prev_for_peer-told peer n words c in
      rw (build_heartbeat_wire, lead, ensure_leader_progress_initialized, filled)
        (bind_rule (λ r m. Recached log laws n m × BuiltOf log laws n peer r)
          (append_prev_for_peer peer) wire_behind n
          (λ x e. (cache, subst (PrevOf log laws n peer) e told))
          (λ prev e.
            wire_behind-beat peer n (append_prev_for_peer peer n).1 prev cache
              (subst (PrevOf log laws n peer) e told)))

  -- The node with another cache and outbox.
  abbrev with_outbox : RaftNode S → LogMetadataArena → List (ℕ × RaftMessage) → RaftNode S
  with_outbox n arena outbox = record n { log_metadata = arena; outbox = outbox }

  -- After a number of targets: what was sent, behind what was there.
  abbrev Sent : RaftNode S → List ℕ → List (ℕ × RaftMessage) → RaftNode S → Type 0
  Sent n targets before m =
      (arena : LogMetadataArena) × (beats : List (ℕ × RaftMessage)) × Coherent arena (log n.storage)
      × (m ≡ with_outbox n arena (before ++ beats))
      × IsRound log laws n targets beats

  one_target :
      (now peer : ℕ) (peers : List ℕ) (n : RaftNode S) (arena : LogMetadataArena)
      (before : List (ℕ × RaftMessage)) (r : Result (Option AppendEntries))
      → BuiltOf log laws n peer r
      → ((o : List (ℕ × RaftMessage))
          → Sent n peers o (send_bare_heartbeats now peers (with_outbox n arena o)))
      → Sent n
          (peer ∷ peers)
          before
          (send_bare_heartbeats now peers (send_built peer r (with_outbox n arena before)))
  one_target now peer peers n arena before (err x) w others =
      let (after, beats, c, e, round) = others before in (after, beats, c, e, inr (w, round))
  one_target now peer peers n arena before (ok none) w others = absurd w
  one_target now peer peers n arena before (ok (some req)) w others =
      let beat : ℕ × RaftMessage = (peer, append_entries_vectored req []) in
      let (after, beats, c, e, round) = others (before ++ beat ∷ []) in
      (
        after,
        beat ∷ beats,
        c,
        e ∙ ap (with_outbox n after) (append_assoc before (beat ∷ []) beats),
        inl (req, beats, refl, w, round),
      )

  send_bare_heartbeats-Sent :
      (now : ℕ) (targets : List ℕ) (n : RaftNode S) (arena : LogMetadataArena)
      (before : List (ℕ × RaftMessage))
      → is_leader n ≡ true
      → is_empty n.peer_progress ≡ false
      → AreWords n
      → Coherent arena (log n.storage)
      → Sent n targets before (send_bare_heartbeats now targets (with_outbox n arena before))
  unfolding send_bare_heartbeats
  send_bare_heartbeats-Sent now [] n arena before lead filled words c =
      (arena, [], c, ap (with_outbox n arena) (sym (append-nil before)), refl)
  send_bare_heartbeats-Sent now (peer ∷ peers) n arena before lead filled words c =
      let k = with_outbox n arena before in
      let ((a, c', same), w) = build_heartbeat_wire-beat now peer k lead filled words c in
      subst
        (λ m.
          Sent n (peer ∷ peers) before (
            send_bare_heartbeats now peers (send_built peer (build_heartbeat_wire now peer k).0 m)))
        (sym same)
        (one_target now peer peers n a before (build_heartbeat_wire now peer k).0 w
          (λ o. send_bare_heartbeats-Sent now peers n a o lead filled words c'))

  -- Over a storage that keeps a log, and a cache that answers as that log, the round of bare
  -- heartbeats leaves a node that does not lead as it was. A leader, which tracks progress with next
  -- indexes that are words, keeps all but its cache and its outbox, and the cache answers as the log.
  -- It sends to the voters and learners, in their order and without itself and the one skipped: to
  -- each a frame without entries, with its term, identity, commit index and probe, and the index
  -- right before the next index of the receiver, with the term there. A receiver is left out only
  -- when it is not tracked, when the node remembers that term neither as its tip nor as its snapshot
  -- boundary and the storage does not tell it, or when the backlog cannot be read.
  pub send_bare_heartbeats_except-AfterRound :
      (now skip : ℕ) (n : RaftNode S)
      → (is_leader n && is_empty n.peer_progress) ≡ false
      → AreWords n
      → IsCoherent log laws n
      → AfterRound log laws (is_leader n) skip n (send_bare_heartbeats_except now skip n)
  unfolding send_bare_heartbeats_except heartbeat_targets
  send_bare_heartbeats_except-AfterRound now skip n tracks words c =
      elim (Bool-cases (is_leader n)) [
        | inr other ↦ rw (send_bare_heartbeats_except, other) refl
        | inl lead ↦
            rw (send_bare_heartbeats_except, lead)
              (send_bare_heartbeats-Sent now (heartbeat_targets skip n) n n.log_metadata n.outbox
                lead (ground (arith, tracks, lead)) words c)
      ]

-- ===== src/Node/Monotone.antt =====
-- What every handler respects: the term never falls, a vote is never forgotten within its term, and
-- the published commit index is the node's.
use arbitro_raft.Base.{
  ℕ, ◌≤◌, ◌<◌, ◌≡◌, refl, false, List, some, ltb, arith, inl, inr, Bool-cases, Option-cases,
}
use arbitro_raft.Storage.{RaftStorage}
use arbitro_raft.Wire.{RequestVote, RequestVoteResp, AppendEntries, AppendEntriesResp}
use arbitro_raft.Node.{
  RaftNode, is_leader, current_term, when, step_down, demote_to_follower_keep_term, send_message,
  set_commit_index,
}
use arbitro_raft.Node.Rules.{bind_node}
use arbitro_raft.Node.Keeps.{Keeps, apply_append_entries-Keeps, prev_matches-node}
use arbitro_raft.Node.Append.{
  handle_append_entries, handle_append_entries_response, accept_entries, reject_entries,
  commit_up_to, follow, check_entries,
}
use arbitro_raft.Node.Commit.{
  try_advance_commit_index, commit_if_current, quorum_term, quorum_index,
}
use arbitro_raft.Node.Election.{
  can_vote, record_vote, handle_request_vote, handle_request_vote_response, handle_pre_vote,
  handle_pre_vote_response,
}

pub record Monotone {S : Type 0} (n m : RaftNode S) : Type 0 where
  pub term_le : n.hard_state.current_term ≤ m.hard_state.current_term
  pub vote_kept :
      (c : ℕ)
      → m.hard_state.current_term ≡ n.hard_state.current_term
      → n.hard_state.voted_for ≡ some c
      → m.hard_state.voted_for ≡ some c
  pub mirrored :
      n.commit_index_pub ≡ n.soft_state.commit_index
      → m.commit_index_pub ≡ m.soft_state.commit_index

pub Monotone-refl : {S : Type 0} (n : RaftNode S) → Monotone n n
Monotone-refl n = ground arith

pub Monotone-trans : {S : Type 0} {n m k : RaftNode S} → Monotone n m → Monotone m k → Monotone n k
Monotone-trans {n = n} {m = m} {k = k} a b = record {
  term_le = omega (arith, a.term_le, b.term_le);
  vote_kept = λ c e v.
      let back : m.hard_state.current_term ≡ n.hard_state.current_term =
        omega (arith, a.term_le, b.term_le) in
      let on : k.hard_state.current_term ≡ m.hard_state.current_term =
        omega (arith, a.term_le, b.term_le) in
      b.vote_kept c on (a.vote_kept c back v);
  mirrored = λ e. b.mirrored (a.mirrored e);
}

Keeps-Monotone : {S : Type 0} {n m : RaftNode S} → Keeps n m → Monotone n m
Keeps-Monotone k = ground (arith, k)

module _ {S : Type 0} ⦃st : RaftStorage S⦄ where
  pub step_down-Monotone :
      (t : ℕ) (n : RaftNode S) → current_term n < t → Monotone n (step_down t n).1
  unfolding step_down demote_to_follower_keep_term
  step_down-Monotone t n h = ground arith

  pub raise_term-Monotone :
      (t : ℕ) (n : RaftNode S) → Monotone n (when (ltb (current_term n) t) (step_down t) n).1
  raise_term-Monotone t n = elim (Bool-cases (ltb (current_term n) t)) [
    | inl e ↦ rw (e, when) (step_down-Monotone t n (ground arith))
    | inr e ↦ rw (e, when) (Monotone-refl n)
  ]

  -- A vote request, however it ends, takes back no vote of its term and lowers no term.
  pub handle_request_vote-Monotone :
      (from : ℕ) (msg : RequestVote) (n : RaftNode S)
      → Monotone n (handle_request_vote from msg n).1
  unfolding handle_request_vote send_message can_vote record_vote step_down
      demote_to_follower_keep_term
  handle_request_vote-Monotone from msg n = ground arith

  pub handle_request_vote_response-Monotone :
      (from : ℕ) (resp : RequestVoteResp) (n : RaftNode S)
      → Monotone n (handle_request_vote_response from resp n).1
  unfolding handle_request_vote_response
  handle_request_vote_response-Monotone from resp n = raise_term-Monotone resp.term n

  pub handle_pre_vote-Monotone :
      (now from : ℕ) (msg : RequestVote) (n : RaftNode S)
      → Monotone n (handle_pre_vote now from msg n).1
  unfolding handle_pre_vote send_message
  handle_pre_vote-Monotone now from msg n = ground arith

  pub handle_pre_vote_response-Monotone :
      (from : ℕ) (resp : RequestVoteResp) (n : RaftNode S)
      → Monotone n (handle_pre_vote_response from resp n).1
  unfolding handle_pre_vote_response
  handle_pre_vote_response-Monotone from resp n = raise_term-Monotone resp.term n

  accept_entries-Monotone :
      (from : ℕ) (msg : AppendEntries) (payload : List ℕ) (n : RaftNode S)
      → is_leader n ≡ false
      → Monotone n (accept_entries from msg payload n).1
  unfolding accept_entries commit_up_to send_message set_commit_index
  accept_entries-Monotone from msg payload n h =
      ground (arith, apply_append_entries-Keeps msg payload n h)

  check_entries-Monotone :
      (from : ℕ) (msg : AppendEntries) (payload : List ℕ) (n : RaftNode S)
      → is_leader n ≡ false
      → Monotone n (check_entries from msg payload n).1
  unfolding check_entries reject_entries send_message
  check_entries-Monotone from msg payload n h = ground (
    arith,
    prev_matches-node msg.prev_log_index msg.prev_log_term n,
    accept_entries-Monotone from msg payload n h,
  )

  pub follow-Monotone : (leader now : ℕ) (n : RaftNode S) → Monotone n (follow leader now n)
  unfolding follow
  follow-Monotone leader now n = ground arith

  pub followed-follows : (leader now : ℕ) (n : RaftNode S) → is_leader (follow leader now n) ≡ false
  unfolding follow
  followed-follows leader now n = refl

  pub reject_entries-Monotone :
      (from : ℕ) (msg : AppendEntries) (hint : ℕ) (n : RaftNode S)
      → Monotone n (reject_entries from msg hint n).1
  unfolding reject_entries send_message
  reject_entries-Monotone from msg hint n = ground arith

  pub handle_append_entries-Monotone :
      (now from : ℕ) (msg : AppendEntries) (payload : List ℕ) (n : RaftNode S)
      → Monotone n (handle_append_entries now from msg payload n).1
  unfolding handle_append_entries
  handle_append_entries-Monotone now from msg payload n =
      elim (Bool-cases (ltb msg.term (current_term n))) [
        | inl old ↦
            rw (old, handle_append_entries) (reject_entries-Monotone from msg n.cached_last_log.0 n)
        | inr new ↦
            let raised = (when (ltb (current_term n) msg.term) (step_down msg.term) n).1 in
            let up = raise_term-Monotone msg.term n in
            let followed = follow msg.leader_id now raised in
            rw (new, handle_append_entries)
              (bind_node (Monotone n) (when (ltb (current_term n) msg.term) (step_down msg.term))
                (λ _ m. check_entries from msg payload (follow msg.leader_id now m)) n up
                λ _ _. Monotone-trans up (
                  Monotone-trans (follow-Monotone msg.leader_id now raised) (
                    check_entries-Monotone from msg payload followed
                      (followed-follows msg.leader_id now raised))))
      ]

  pub handle_append_entries_response-Monotone :
      (from : ℕ) (resp : AppendEntriesResp) (n : RaftNode S)
      → Monotone n (handle_append_entries_response from resp n).1
  unfolding handle_append_entries_response
  handle_append_entries_response-Monotone from resp n =
      ground (arith, step_down-Monotone resp.term n)

  quorum_term-Keeps : (q : ℕ) (n : RaftNode S) → Keeps n (quorum_term q n).1
  unfolding quorum_term
  quorum_term-Keeps q n = ground arith

  commit_if_current-Monotone : (q : ℕ) (n : RaftNode S) → Monotone n (commit_if_current q n).1
  unfolding commit_if_current set_commit_index
  commit_if_current-Monotone q n = ground (arith, quorum_term-Keeps q n)

  pub try_advance_commit_index-Monotone :
      (n : RaftNode S) → Monotone n (try_advance_commit_index n).1
  unfolding try_advance_commit_index
  try_advance_commit_index-Monotone n = elim (Option-cases (quorum_index n.joint_peers n)) [
    | inl e ↦ ground (arith, e)
    | inr (q, e) ↦ ground (arith, e, commit_if_current-Monotone q n)
  ]

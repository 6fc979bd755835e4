-- ===== src/Node/Election.antt =====
-- src/api/node/election.rs: the handlers of votes and pre-votes. `now` is the instant at which the
-- handler runs.
use arbitro_raft.Base.{
  ℕ, ◌-◌, max, Bool, true, false, not, ◌&&◌, ◌||◌, Option, none, some, ltb, leb, ◌==◌,
}
use arbitro_raft.Storage.{RaftStorage}
use arbitro_raft.Wire.{RequestVote, RequestVoteResp, request_vote_resp, pre_vote_resp}
use arbitro_raft.Node.{
  RaftNode, M, when, modify, get_node, on_storage, from_storage, ◌>>=◌, ◌>>◌, is_leader,
  current_term, send_message, step_down,
}

-- The log position `(index, term)` of a candidate against that of the voter.
unfoldable pub candidate_up_to_date : ℕ × ℕ → ℕ × ℕ → Bool
candidate_up_to_date (log_index, log_term) (last_log_index, last_log_term) =
    ltb last_log_term log_term || ((log_term == last_log_term) && leb last_log_index log_index)

-- `voted_for.map(|voted| voted == candidate_id).unwrap_or(true)`.
abbrev pub may_vote_for : Option ℕ → ℕ → Bool
may_vote_for none candidate = true
may_vote_for (some voted) candidate = voted == candidate

abbrev pub flag : Bool → ℕ
flag true = 1
flag false = 0

-- A leader heard within the minimum election timeout.
unfoldable pub leader_contact_fresh : Option ℕ → ℕ → ℕ → Bool
leader_contact_fresh none election_min_ms now = false
leader_contact_fresh (some t) election_min_ms now = ltb (now - t) (max election_min_ms 1)

module _ {S : Type 0} ⦃st : RaftStorage S⦄ where
  -- The test that grants the vote, after the term of the request was adopted.
  unfoldable pub can_vote : RequestVote → ℕ × ℕ → RaftNode S → Bool
  unfolding candidate_up_to_date
  can_vote msg position n =
      (msg.term == current_term n)
      && (candidate_up_to_date (msg.last_log_index, msg.last_log_term) position
          && may_vote_for n.hard_state.voted_for msg.candidate_id)

  -- `self.hard_state.voted_for = Some(candidate_id)` and the save.
  unfoldable pub record_vote : ℕ → M S (Unit {0})
  record_vote candidate = do
    modify λ n. record n { hard_state = record (n.hard_state) { voted_for = some candidate } }
    n ← get_node
    on_storage λ s. st.save_hard_state s n.hard_state

  -- The handler behind the adoption of a higher term.
  unfoldable pub answer_vote : ℕ → RequestVote → M S (Unit {0})
  unfolding can_vote record_vote send_message
  answer_vote from msg = do
    position ← from_storage st.last_log_position
    n ← get_node
    let granted = can_vote msg position n
    when granted (record_vote msg.candidate_id)
    send_message from
        (request_vote_resp (record { term = current_term n; vote_granted = flag granted }))

  unfoldable pub handle_request_vote : ℕ → RequestVote → M S (Unit {0})
  unfolding answer_vote step_down
  handle_request_vote from msg = do
    n ← get_node
    when (ltb (current_term n) msg.term) (step_down msg.term)
    answer_vote from msg

  unfoldable pub handle_request_vote_response : ℕ → RequestVoteResp → M S (Unit {0})
  unfolding step_down
  handle_request_vote_response from resp = do
    n ← get_node
    when (ltb (current_term n) resp.term) (step_down resp.term)

  unfoldable pub leader_active : ℕ → RaftNode S → Bool
  unfolding leader_contact_fresh
  leader_active now n =
      is_leader n || leader_contact_fresh n.last_leader_contact n.config.timing.election_min_ms now

  unfoldable pub can_grant : ℕ → RequestVote → ℕ × ℕ → RaftNode S → Bool
  unfolding leader_active candidate_up_to_date
  can_grant now msg position n =
      not (leader_active now n)
      && (leb (current_term n) msg.term
          && candidate_up_to_date (msg.last_log_index, msg.last_log_term) position)

  unfoldable pub handle_pre_vote : ℕ → ℕ → RequestVote → M S (Unit {0})
  unfolding can_grant send_message
  handle_pre_vote now from msg = do
    position ← from_storage st.last_log_position
    n ← get_node
    send_message from (
        pre_vote_resp
          (record { term = current_term n; vote_granted = flag (can_grant now msg position n) }))

  unfoldable pub handle_pre_vote_response : ℕ → RequestVoteResp → M S (Unit {0})
  unfolding step_down
  handle_pre_vote_response from resp = do
    n ← get_node
    when (ltb (current_term n) resp.term) (step_down resp.term)

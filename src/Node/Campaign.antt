-- ===== src/Node/Campaign.antt =====
-- src/api/node/election.rs: the campaigns. What `drain_inbound_frames` returns is an argument: the
-- list of its successive results, each frame with the instant at which it is handled. Behind the
-- list the deadline has passed, and a drain returns no frame. `delivered` tells the peers whose
-- transport took the request.
use arbitro_raft.Base.{
  ℕ, ◌+◌, Bool, true, false, not, ◌&&◌, ◌||◌, List, [], ◌∷◌, Option, none, some, ltb, leb, ◌==◌,
  if◌then◌else◌, length, count_if, contains, retain, map, saturating_add, ◌++◌,
}
use arbitro_raft.Types.{candidate, leader, is_candidate_role}
use arbitro_raft.Error.{no_quorum, Result, ok, err}
use arbitro_raft.Storage.{RaftStorage}
use arbitro_raft.PeerMap.{insert}
use arbitro_raft.Quorum.{quorum, voter_majority}
use arbitro_raft.Wire.{
  RaftMessage, InboundRaftMessage, RequestVote, RequestVoteResp, request_vote, request_vote_resp,
  pre_vote, pre_vote_resp,
}
use arbitro_raft.Node.{
  RaftNode, M, pure, fail, modify, get_node, on_storage, from_storage, ◌>>=◌, ◌>>◌, current_term,
  is_voter, step_down,
}
use arbitro_raft.Node.Custom.{CustomHandlers}
use arbitro_raft.Node.Membership.{fresh_progress}
use arbitro_raft.Node.Inbound.{handle_inbound, handle_inbound_tolerant}

-- A frame and the instant at which it is handled.
pub record Frame : Type 0 where
  pub now : ℕ
  pub inbound : InboundRaftMessage

abbrev pub Drains : Type 0
Drains = List (Result (List Frame))

-- The two loops that collect votes differ in the message that they count, in the term that a grant
-- must have, in what they return when no frame comes, and in when they give up.
pub data Ballot : Type 0 where
  for_vote for_pre_vote : Ballot

abbrev pub response_of : Ballot → RaftMessage → Option RequestVoteResp
response_of for_vote (request_vote_resp resp) = some resp
response_of for_pre_vote (pre_vote_resp resp) = some resp
response_of _ _ = none

-- The voters that granted, and the peers that answered.
pub record Tally : Type 0 where
  pub granted : List ℕ
  pub responders : List ℕ

module _ {S : Type 0} where
  abbrev pub majority_of : RaftNode S → List ℕ → Bool
  majority_of n granted = voter_majority n.joint_peers n.config.peers granted

  -- The term that a grant must have: of the campaign, or the node's own before it.
  abbrev pub ballot_term : Ballot → ℕ → RaftNode S → ℕ
  ballot_term for_vote term n = term
  ballot_term for_pre_vote term n = current_term n

  -- After the requests were handled: the role and the term of the campaign were lost, or the term
  -- of the pre-vote was reached.
  unfoldable pub is_abandoned : Ballot → ℕ → RaftNode S → Bool
  is_abandoned for_vote term n =
      not (is_candidate_role n.soft_state.role) || not (current_term n == term)
  is_abandoned for_pre_vote term n = leb term (current_term n)

  -- What a drain without a frame makes of the campaign.
  unfoldable pub no_frames : Ballot → M S Bool
  no_frames for_vote = fail no_quorum
  no_frames for_pre_vote = pure false

  unfoldable pub counts_grant : Ballot → ℕ → ℕ → RequestVoteResp → RaftNode S → Bool
  counts_grant ballot term from resp n =
      (resp.term == ballot_term ballot term n) && (not (resp.vote_granted == 0) && is_voter n from)

module _ {S : Type 0} ⦃st : RaftStorage S⦄ where
  -- One response: `none` where its term is higher, which deposes the node.
  unfoldable pub count_response : Ballot → ℕ → ℕ → RequestVoteResp → Tally → M S (Option Tally)
  unfolding counts_grant
  count_response ballot term from resp t n =
      let responders = t.responders ++ from ∷ [] in
      if contains t.responders from
      then (ok (some t), n)
      else if ltb (current_term n) resp.term
      then (step_down resp.term >> pure none) n
      else if counts_grant ballot term from resp n
      then (ok (some (record { granted = t.granted ++ from ∷ []; responders = responders })), n)
      else (ok (some (record { granted = t.granted; responders = responders })), n)

  unfoldable pub process_frame : Ballot → ℕ → Frame → Tally → M S (Option Tally)
  process_frame ballot term f t = elim (response_of ballot f.inbound.message) [
    | none ↦ pure (some t)
    | some resp ↦ count_response ballot term f.inbound.from resp t
  ]

  -- The first pass over a batch: the responses.
  unfoldable pub process_responses : Ballot → ℕ → List Frame → Tally → M S (Option Tally)
  process_responses ballot term [] t = pure (some t)
  process_responses ballot term (f ∷ fs) t = process_frame ballot term f t >>= λ r. elim r [
    | none ↦ pure none
    | some t' ↦ process_responses ballot term fs t'
  ]

  -- How a request is handled: errors that are not fatal are tolerated in a campaign only.
  abbrev pub handle_request : CustomHandlers → Ballot → Frame → M S (Unit {0})
  handle_request handlers for_vote f = handle_inbound_tolerant handlers f.now f.inbound
  handle_request handlers for_pre_vote f = handle_inbound handlers f.now f.inbound

  -- The second pass: all that is no response of the ballot.
  unfoldable pub process_requests : CustomHandlers → Ballot → List Frame → M S (Unit {0})
  process_requests handlers ballot [] = pure tt
  process_requests handlers ballot (f ∷ fs) = elim (response_of ballot f.inbound.message) [
    | some resp ↦ process_requests handlers ballot fs
    | none ↦ handle_request handlers ballot f >> process_requests handlers ballot fs
  ]

  -- What follows the first pass; `others` goes on with the loop.
  unfoldable pub after_responses :
      CustomHandlers → Ballot → ℕ → List Frame → (Tally → M S Bool) → Option Tally → M S Bool
  unfolding process_requests is_abandoned
  after_responses handlers ballot term fs others none n = (ok false, n)
  after_responses handlers ballot term fs others (some t) n =
      if majority_of n t.granted
      then (ok true, n)
      else (process_requests handlers ballot fs >>= λ _ m.
            if is_abandoned ballot term m then (ok false, m) else others t m)
          n

  -- The body of the loop, on what the drain returned.
  unfoldable pub take_batch :
      CustomHandlers → Ballot → ℕ → (Tally → M S Bool) → Tally → Result (List Frame) → M S Bool
  unfolding process_responses after_responses no_frames
  take_batch handlers ballot term others t (err e) n = (err e, n)
  take_batch handlers ballot term others t (ok []) n = no_frames ballot n
  take_batch handlers ballot term others t (ok (f ∷ fs)) n =
      (process_responses ballot term (f ∷ fs) t
          >>= after_responses handlers ballot term (f ∷ fs) others)
        n

  -- The `while` loop.
  unfoldable pub collect_votes : CustomHandlers → Ballot → ℕ → ℕ → Drains → Tally → M S Bool
  collect_votes handlers ballot term possible [] t n =
      if not (majority_of n t.granted) && ltb (length t.responders) possible
      then no_frames ballot n
      else (ok (majority_of n t.granted), n)
  collect_votes handlers ballot term possible (d ∷ ds) t n =
      if not (majority_of n t.granted) && ltb (length t.responders) possible
      then take_batch handlers ballot term (collect_votes handlers ballot term possible ds) t d n
      else (ok (majority_of n t.granted), n)

-- The peers that a broadcast is sent to.
unfoldable pub broadcast_targets : ℕ → List ℕ → List ℕ
broadcast_targets self_id peers = retain (λ p. not (p == self_id)) peers

module _ {S : Type 0} where
  -- `broadcast_request_vote`: the sends, and one possible vote more than were taken.
  unfoldable pub broadcast : (ℕ → Bool) → RaftMessage → M S ℕ
  unfolding broadcast_targets
  broadcast delivered msg n =
      let targets = broadcast_targets n.config.node_id n.config.peers in
      (
        ok (1 + count_if delivered targets),
        record n { outbox = n.outbox ++ map (λ p. (p, msg)) targets },
      )

  abbrev pub request_at : ℕ → ℕ × ℕ → RaftNode S → RequestVote
  request_at term (last_index, last_term) n = record {
    term = term;
    candidate_id = n.config.node_id;
    last_log_index = last_index;
    last_log_term = last_term;
  }

  -- The node alone has voted.
  abbrev pub own_vote : RaftNode S → Tally
  own_vote n = record { granted = n.config.node_id ∷ []; responders = [] }

  -- `role = Candidate`, the next term, and the vote for itself.
  unfoldable pub become_candidate : RaftNode S → RaftNode S
  become_candidate n = record n {
    soft_state = record (n.soft_state) { role = candidate; is_leader = false; leader_id = none };
    metrics = record (n.metrics) { elections_started = n.metrics.elections_started + 1 };
    hard_state = record {
      current_term = saturating_add (current_term n) 1;
      voted_for = some n.config.node_id;
    };
  }

  -- The loops of `initialize_leader_progress` over the voters and over the learners.
  unfoldable pub init_voters : ℕ → List ℕ → RaftNode S → RaftNode S
  init_voters now [] n = n
  init_voters now (p ∷ ps) n = init_voters now ps (record n {
    peer_progress = insert n.peer_progress p (fresh_progress n.cached_last_log.0);
    last_voter_contact = insert n.last_voter_contact p now;
  })

  unfoldable pub init_learners : List ℕ → RaftNode S → RaftNode S
  init_learners [] n = n
  init_learners (p ∷ ps) n =
      init_learners ps
        (record n { peer_progress = insert n.peer_progress p (fresh_progress n.cached_last_log.0) })

  unfoldable pub initialize_leader_progress : ℕ → RaftNode S → RaftNode S
  unfolding init_voters init_learners broadcast_targets
  initialize_leader_progress now n =
      let others = broadcast_targets n.config.node_id in
      init_learners (others n.config.learners) (
        init_voters now (others n.config.peers)
          (record n { peer_progress = []; last_voter_contact = [] }))

  -- Role, hint and counter of the winner.
  unfoldable pub crown : RaftNode S → RaftNode S
  crown n = record n {
    soft_state = record (n.soft_state) {
      role = leader;
      is_leader = true;
      leader_id = some n.config.node_id;
    };
    metrics = record (n.metrics) { elections_won = n.metrics.elections_won + 1 };
  }

  unfoldable pub become_leader : ℕ → RaftNode S → RaftNode S
  unfolding initialize_leader_progress crown
  become_leader now n = initialize_leader_progress now (crown n)

  -- What follows the collection of votes.
  unfoldable pub claim_leadership : ℕ → ℕ → Bool → M S Bool
  unfolding become_leader is_abandoned
  claim_leadership now term won n =
      if not won || is_abandoned for_vote term n
      then (ok false, n)
      else (ok true, become_leader now n)

module _ {S : Type 0} ⦃st : RaftStorage S⦄ where
  -- The campaign behind the broadcast; `now` is the instant of the victory.
  unfoldable pub gather_votes : CustomHandlers → ℕ → ℕ → Drains → M S Bool
  unfolding collect_votes claim_leadership quorum
  gather_votes handlers now possible drains n =
      if ltb possible (quorum (length n.config.peers))
      then (err no_quorum, n)
      else (collect_votes handlers for_vote (current_term n) possible drains (own_vote n)
            >>= claim_leadership now (current_term n))
          n

  -- The campaign behind the save of the vote.
  unfoldable pub run_campaign : CustomHandlers → ℕ → (ℕ → Bool) → Drains → M S Bool
  unfolding broadcast gather_votes
  run_campaign handlers now delivered drains = do
    position ← from_storage st.last_log_position
    n ← get_node
    possible ← broadcast delivered (request_vote (request_at (current_term n) position n))
    gather_votes handlers now possible drains

  unfoldable pub campaign_once : CustomHandlers → ℕ → (ℕ → Bool) → Drains → M S Bool
  unfolding become_candidate run_campaign
  campaign_once handlers now delivered drains n =
      if is_voter n n.config.node_id
      then (do
        modify become_candidate
        n ← get_node
        on_storage λ s. st.save_hard_state s n.hard_state
        run_campaign handlers now delivered drains)
          n
      else (ok false, n)

  unfoldable pub campaign_pre_vote : CustomHandlers → (ℕ → Bool) → Drains → M S Bool
  unfolding broadcast collect_votes quorum
  campaign_pre_vote handlers delivered drains n =
      let term = saturating_add (current_term n) 1 in
      if is_voter n n.config.node_id
      then (do
        position ← from_storage st.last_log_position
        possible ← broadcast delivered (pre_vote (request_at term position n))
        if ltb possible (quorum (length n.config.peers))
            then pure false
            else collect_votes handlers for_pre_vote term possible drains (own_vote n))
          n
      else (ok false, n)

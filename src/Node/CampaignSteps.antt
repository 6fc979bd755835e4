-- ===== src/Node/CampaignSteps.antt =====
-- The campaigns respect what every handler respects: term, vote and published commit index.
use arbitro_raft.Base.{
  ℕ, ◌<◌, Bool, true, false, not, ◌&&◌, ◌||◌, List, [], ◌∷◌, Option, none, some, ltb, arith, inl,
  inr, Bool-cases, Option-cases, length, u64_max, saturating_add, count_if, ◌+◌, if◌then◌else◌,
}
use arbitro_raft.Error.{Result, ok, err}
use arbitro_raft.Storage.{RaftStorage}
use arbitro_raft.Quorum.{quorum}
use arbitro_raft.Wire.{RequestVoteResp, RaftMessage, request_vote, pre_vote}
use arbitro_raft.Node.{RaftNode, M, current_term, is_voter, pure, on_storage, from_storage}
use arbitro_raft.Node.Rules.{bind_node}
use arbitro_raft.Node.Custom.{CustomHandlers}
use arbitro_raft.Node.Inbound.{handle_inbound_tolerant}
use arbitro_raft.Node.Monotone.{Monotone, Monotone-refl, Monotone-trans, step_down-Monotone}
use arbitro_raft.Node.Received.{handle_inbound-Monotone}
use arbitro_raft.Node.Campaign.{
  Frame, Drains, Ballot, for_vote, for_pre_vote, response_of, Tally, count_response, process_frame,
  process_responses, handle_request, process_requests, after_responses, take_batch, collect_votes,
  majority_of, is_abandoned, no_frames, own_vote, broadcast, claim_leadership, crown, become_leader,
  init_voters, init_learners, broadcast_targets, initialize_leader_progress, gather_votes,
  run_campaign, become_candidate, campaign_once, campaign_pre_vote, request_at,
}

module _ {S : Type 0} where
  no_frames-Monotone : (ballot : Ballot) (n : RaftNode S) → Monotone n (no_frames ballot n).1
  unfolding no_frames
  no_frames-Monotone for_vote n = Monotone-refl n
  no_frames-Monotone for_pre_vote n = Monotone-refl n

  init_voters-Monotone :
      (now : ℕ) (ps : List ℕ) (n : RaftNode S) → Monotone n (init_voters now ps n)
  unfolding init_voters
  init_voters-Monotone now [] n = Monotone-refl n
  init_voters-Monotone now (p ∷ ps) n =
      let r = init_voters-Monotone now ps _ in
      record { term_le = r.term_le; vote_kept = r.vote_kept; mirrored = r.mirrored }

  init_learners-Monotone : (ps : List ℕ) (n : RaftNode S) → Monotone n (init_learners ps n)
  unfolding init_learners
  init_learners-Monotone [] n = Monotone-refl n
  init_learners-Monotone (p ∷ ps) n =
      let r = init_learners-Monotone ps _ in
      record { term_le = r.term_le; vote_kept = r.vote_kept; mirrored = r.mirrored }

  initialize_leader_progress-Monotone :
      (now : ℕ) (n : RaftNode S) → Monotone n (initialize_leader_progress now n)
  unfolding initialize_leader_progress
  initialize_leader_progress-Monotone now n =
      let cleared : RaftNode S = record n { peer_progress = []; last_voter_contact = [] } in
      let voters = broadcast_targets n.config.node_id n.config.peers in
      let a : Monotone cleared (init_voters now voters cleared) =
        init_voters-Monotone now voters cleared in
      let r = Monotone-trans a (
        init_learners-Monotone (broadcast_targets n.config.node_id n.config.learners)
          (init_voters now voters cleared)) in
      record { term_le = r.term_le; vote_kept = r.vote_kept; mirrored = r.mirrored }

  claim_leadership-Monotone :
      (now term : ℕ) (won : Bool) (n : RaftNode S) → Monotone n (claim_leadership now term won n).1
  unfolding claim_leadership become_leader crown
  claim_leadership-Monotone now term won n =
      elim (Bool-cases (not won || is_abandoned for_vote term n)) [
        | inl e ↦ rw (claim_leadership, e) (Monotone-refl n)
        | inr e ↦
            let r = initialize_leader_progress-Monotone now (crown n) in
            rw (claim_leadership, e)
              (record { term_le = r.term_le; vote_kept = r.vote_kept; mirrored = r.mirrored })
      ]

  broadcast-Monotone :
      (delivered : ℕ → Bool) (msg : RaftMessage) (n : RaftNode S)
      → Monotone n (broadcast delivered msg n).1
  unfolding broadcast
  broadcast-Monotone delivered msg n = ground arith

  become_candidate-Monotone :
      (n : RaftNode S) → current_term n < u64_max → Monotone n (become_candidate n)
  unfolding become_candidate
  become_candidate-Monotone n h = ground arith

module _ {S : Type 0} ⦃st : RaftStorage S⦄ where
  count_response-Monotone :
      (ballot : Ballot) (term from : ℕ) (resp : RequestVoteResp) (t : Tally) (n : RaftNode S)
      → Monotone n (count_response ballot term from resp t n).1
  unfolding count_response
  count_response-Monotone ballot term from resp t n = ground (arith, step_down-Monotone resp.term n)

  process_frame-Monotone :
      (ballot : Ballot) (term : ℕ) (f : Frame) (t : Tally) (n : RaftNode S)
      → Monotone n (process_frame ballot term f t n).1
  unfolding process_frame
  process_frame-Monotone ballot term f t n =
      elim (Option-cases (response_of ballot f.inbound.message)) [
        | inl e ↦ rw (process_frame, e) (Monotone-refl n)
        | inr (resp, e) ↦
            rw (process_frame, e) (count_response-Monotone ballot term f.inbound.from resp t n)
      ]

  after_frame :
      (ballot : Ballot) (term : ℕ) (fs : List Frame) (n m : RaftNode S) (r : Option Tally)
      → Monotone n m
      → ((t : Tally) (k : RaftNode S) → Monotone k (process_responses ballot term fs t k).1)
      → let rest : M S (Option Tally) = elim r [
        | none ↦ pure none
        | some t ↦ process_responses ballot term fs t
      ] in
        Monotone n (rest m).1
  after_frame ballot term fs n m none one others = one
  after_frame ballot term fs n m (some t) one others = Monotone-trans one (others t m)

  process_responses-Monotone :
      (ballot : Ballot) (term : ℕ) (fs : List Frame) (t : Tally) (n : RaftNode S)
      → Monotone n (process_responses ballot term fs t n).1
  unfolding process_responses
  process_responses-Monotone ballot term [] t n = Monotone-refl n
  process_responses-Monotone ballot term (f ∷ fs) t n =
      let one = process_frame-Monotone ballot term f t n in
      bind_node (Monotone n) (process_frame ballot term f t) _ n one λ r _.
        after_frame ballot term fs n (process_frame ballot term f t n).1 r one
          λ t' m. process_responses-Monotone ballot term fs t' m

  handle_request-Monotone :
      (handlers : CustomHandlers) (ballot : Ballot) (f : Frame) (n : RaftNode S)
      → Monotone n (handle_request handlers ballot f n).1
  unfolding handle_inbound_tolerant
  handle_request-Monotone handlers for_vote f n = handle_inbound-Monotone handlers f.now f.inbound n
  handle_request-Monotone handlers for_pre_vote f n =
      handle_inbound-Monotone handlers f.now f.inbound n

  process_requests-Monotone :
      (handlers : CustomHandlers) (ballot : Ballot) (fs : List Frame) (n : RaftNode S)
      → Monotone n (process_requests handlers ballot fs n).1
  unfolding process_requests
  process_requests-Monotone handlers ballot [] n = Monotone-refl n
  process_requests-Monotone handlers ballot (f ∷ fs) n =
      elim (Option-cases (response_of ballot f.inbound.message)) [
        | inr (resp, e) ↦ rw (process_requests, e) (process_requests-Monotone handlers ballot fs n)
        | inl e ↦
            let one = handle_request-Monotone handlers ballot f n in
            rw (process_requests, e)
              (bind_node (Monotone n) (handle_request handlers ballot f)
                (λ _. process_requests handlers ballot fs) n one
                λ _ _. Monotone-trans one (process_requests-Monotone handlers ballot fs _))
      ]

module _ {S : Type 0} ⦃st : RaftStorage S⦄ (handlers : CustomHandlers) (ballot : Ballot)
    (term : ℕ) where
  -- The rest of the loop respects it from every node.
  abbrev Respects : (Tally → M S Bool) → Type 0
  Respects others = (t : Tally) (m : RaftNode S) → Monotone m (others t m).1

  after_responses-Monotone :
      (fs : List Frame) (others : Tally → M S Bool) (r : Option Tally) (n : RaftNode S)
      → Respects others
      → Monotone n (after_responses handlers ballot term fs others r n).1
  unfolding after_responses
  after_responses-Monotone fs others none n next = Monotone-refl n
  after_responses-Monotone fs others (some t) n next = elim (Bool-cases (majority_of n t.granted)) [
    | inl e ↦ rw (after_responses, e) (Monotone-refl n)
    | inr e ↦
        let pass = process_requests-Monotone handlers ballot fs n in
        let m = (process_requests handlers ballot fs n).1 in
        rw (after_responses, e)
          (bind_node (Monotone n) (process_requests handlers ballot fs) _ n pass λ _ _.
            elim (Bool-cases (is_abandoned ballot term m)) [
              | inl a ↦ rw a pass
              | inr a ↦ rw a (Monotone-trans pass (next t m))
            ])
  ]

  take_batch-Monotone :
      (others : Tally → M S Bool) (t : Tally) (d : Result (List Frame)) (n : RaftNode S)
      → Respects others
      → Monotone n (take_batch handlers ballot term others t d n).1
  unfolding take_batch
  take_batch-Monotone others t (err e) n next = Monotone-refl n
  take_batch-Monotone others t (ok []) n next = no_frames-Monotone ballot n
  take_batch-Monotone others t (ok (f ∷ fs)) n next =
      let one = process_responses-Monotone ballot term (f ∷ fs) t n in
      bind_node (Monotone n) (process_responses ballot term (f ∷ fs) t) _ n one
        λ r _. Monotone-trans one (after_responses-Monotone (f ∷ fs) others r _ next)

  collect_votes-Monotone :
      (possible : ℕ) (ds : Drains) (t : Tally) (n : RaftNode S)
      → Monotone n (collect_votes handlers ballot term possible ds t n).1
  unfolding collect_votes
  collect_votes-Monotone possible [] t n =
      elim (Bool-cases (not (majority_of n t.granted) && ltb (length t.responders) possible)) [
        | inl e ↦ rw (collect_votes, e) (no_frames-Monotone ballot n)
        | inr e ↦ rw (collect_votes, e) (Monotone-refl n)
      ]
  collect_votes-Monotone possible (d ∷ ds) t n =
      elim (Bool-cases (not (majority_of n t.granted) && ltb (length t.responders) possible)) [
        | inr e ↦ rw (collect_votes, e) (Monotone-refl n)
        | inl e ↦
            rw (collect_votes, e)
              (take_batch-Monotone (collect_votes handlers ballot term possible ds) t d n
                λ t' m. collect_votes-Monotone possible ds t' m)
      ]

module _ {S : Type 0} ⦃st : RaftStorage S⦄ (handlers : CustomHandlers) where
  gather_votes-Monotone :
      (now possible : ℕ) (drains : Drains) (n : RaftNode S)
      → Monotone n (gather_votes handlers now possible drains n).1
  unfolding gather_votes
  gather_votes-Monotone now possible drains n =
      elim (Bool-cases (ltb possible (quorum (length n.config.peers)))) [
        | inl few ↦ rw (gather_votes, few) (Monotone-refl n)
        | inr enough ↦
            let term = current_term n in
            let one =
              collect_votes-Monotone handlers for_vote term possible drains (own_vote n) n in
            rw (gather_votes, enough)
              (bind_node (Monotone n)
                (collect_votes handlers for_vote term possible drains (own_vote n))
                (claim_leadership now term) n one
                λ won _. Monotone-trans one (claim_leadership-Monotone now term won _))
      ]

  pub run_campaign-Monotone :
      (now : ℕ) (delivered : ℕ → Bool) (drains : Drains) (n : RaftNode S)
      → Monotone n (run_campaign handlers now delivered drains n).1
  unfolding run_campaign broadcast
  run_campaign-Monotone now delivered drains n =
      bind_node (Monotone n) (from_storage st.last_log_position) _ n (Monotone-refl n) λ position _.
        let msg = request_vote (request_at (current_term n) position n) in
        let one = broadcast-Monotone delivered msg n in
        Monotone-trans one (gather_votes-Monotone now _ drains (broadcast delivered msg n).1)

  pub campaign_once-Monotone :
      (now : ℕ) (delivered : ℕ → Bool) (drains : Drains) (n : RaftNode S)
      → current_term n < u64_max
      → Monotone n (campaign_once handlers now delivered drains n).1
  unfolding campaign_once
  campaign_once-Monotone now delivered drains n h =
      elim (Bool-cases (is_voter n n.config.node_id)) [
        | inr e ↦ rw (campaign_once, e) (Monotone-refl n)
        | inl e ↦
            let k = become_candidate n in
            let up = become_candidate-Monotone n h in
            let saved : Monotone n
                (record k { storage = (st.save_hard_state k.storage k.hard_state).1 }) =
              record { term_le = up.term_le; vote_kept = up.vote_kept; mirrored = up.mirrored } in
            rw (campaign_once, e)
              (bind_node (Monotone n) (on_storage λ s. st.save_hard_state s k.hard_state) _ k saved
                λ _ _. Monotone-trans saved (run_campaign-Monotone now delivered drains _))
      ]

  pre_vote_outcome :
      (few : Bool) (n m : RaftNode S) (votes : M S Bool)
      → Monotone n m
      → Monotone m (votes m).1
      → Monotone n ((if few then pure false else votes) m).1
  pre_vote_outcome true n m votes one rest = one
  pre_vote_outcome false n m votes one rest = Monotone-trans one rest

  pub campaign_pre_vote-Monotone :
      (delivered : ℕ → Bool) (drains : Drains) (n : RaftNode S)
      → Monotone n (campaign_pre_vote handlers delivered drains n).1
  unfolding campaign_pre_vote broadcast
  campaign_pre_vote-Monotone delivered drains n = elim (Bool-cases (is_voter n n.config.node_id)) [
    | inr e ↦ rw (campaign_pre_vote, e) (Monotone-refl n)
    | inl e ↦
        rw (campaign_pre_vote, e)
          (bind_node (Monotone n) (from_storage st.last_log_position) _ n (Monotone-refl n)
            λ position _.
              let term = saturating_add (current_term n) 1 in
              let msg = pre_vote (request_at term position n) in
              let one = broadcast-Monotone delivered msg n in
              let m = (broadcast delivered msg n).1 in
              pre_vote_outcome
                (ltb (1 + count_if delivered (broadcast_targets n.config.node_id n.config.peers))
                  (quorum (length n.config.peers)))
                n m _ one
                (collect_votes-Monotone handlers for_pre_vote term _ drains (own_vote n) m))
  ]

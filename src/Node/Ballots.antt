-- ===== src/Node/Ballots.antt =====
-- Two edges of a campaign: the last term, and a response that claims to come from the node itself.
use arbitro_raft.Base.{
  ℕ, ◌≡◌, refl, ◌∙◌, sym, ◌≤◌, Bool, true, [], ◌∷◌, none, some, arith, length, u64_max,
}
use arbitro_raft.Error.{ok}
use arbitro_raft.Storage.{RaftStorage}
use arbitro_raft.Quorum.{quorum, voter_majority}
use arbitro_raft.Wire.{RequestVoteResp}
use arbitro_raft.Node.{RaftNode, current_term, is_voter, on_storage}
use arbitro_raft.Node.Rules.{bind_node}
use arbitro_raft.Node.Custom.{CustomHandlers}
use arbitro_raft.Node.Monotone.{Monotone, Monotone-trans}
use arbitro_raft.Node.Campaign.{
  Drains, for_vote, Tally, own_vote, majority_of, count_response, counts_grant, become_candidate,
  campaign_once,
}
use arbitro_raft.Node.CampaignSteps.{run_campaign-Monotone}

Monotone-save : {S : Type 0} (n : RaftNode S) (s : S) → Monotone n (record n { storage = s })
Monotone-save n s = ground arith

module _ {S : Type 0} where
  candidate_term :
      (n : RaftNode S) → current_term n ≡ u64_max → current_term (become_candidate n) ≡ u64_max
  unfolding become_candidate
  candidate_term n last = omega (arith, last)

  candidate_vote :
      (n : RaftNode S) → (become_candidate n).hard_state.voted_for ≡ some n.config.node_id
  unfolding become_candidate
  candidate_vote n = refl

module _ {S : Type 0} ⦃st : RaftStorage S⦄ where
  candidate_kept :
      (handlers : CustomHandlers) (now : ℕ) (delivered : ℕ → Bool) (drains : Drains)
      (n : RaftNode S)
      → is_voter n n.config.node_id ≡ true
      → Monotone (become_candidate n) (campaign_once handlers now delivered drains n).1
  unfolding campaign_once
  candidate_kept handlers now delivered drains n v =
      let k = become_candidate n in
      let saved : RaftNode S = record k {
        storage = (st.save_hard_state k.storage k.hard_state).1;
      } in
      let rest = run_campaign-Monotone handlers now delivered drains saved in
      let first : Monotone k saved = Monotone-save k _ in
      rw (campaign_once, v)
        (bind_node (Monotone k) (on_storage λ s. st.save_hard_state s k.hard_state) _ k first
          λ _ _. Monotone-trans first rest)

  -- A campaign of a voter from the last term that stays in that term leaves the vote of the term with
  -- the node itself, whoever had it before.
  pub campaign_once-revotes :
      (handlers : CustomHandlers) (now : ℕ) (delivered : ℕ → Bool) (drains : Drains)
      (n : RaftNode S)
      → is_voter n n.config.node_id ≡ true
      → current_term n ≡ u64_max
      → current_term (campaign_once handlers now delivered drains n).1 ≡ u64_max
      → (campaign_once handlers now delivered drains n).1.hard_state.voted_for
        ≡ some n.config.node_id
  campaign_once-revotes handlers now delivered drains n v last still =
      let kept = candidate_kept handlers now delivered drains n v in
      kept.vote_kept n.config.node_id (still ∙ sym (candidate_term n last)) (candidate_vote n)

  -- A grant that claims to come from the node itself is counted besides the node's own vote, and the
  -- two make a majority of up to three voters.
  pub own_grant-counts_twice :
      (resp : RequestVoteResp) (n : RaftNode S)
      → n.joint_peers ≡ none
      → length n.config.peers ≤ 3
      → is_voter n n.config.node_id ≡ true
      → resp.term ≡ current_term n
      → resp.vote_granted ≡ 1
      → (t : Tally) × ((count_response for_vote
            (current_term n)
            n.config.node_id
            resp
            (own_vote n)
            n).0
          ≡ ok (some t))
        × (majority_of n t.granted ≡ true)
  unfolding count_response counts_grant voter_majority quorum
  own_grant-counts_twice resp n j l v t g = (
    record {
      granted = n.config.node_id ∷ n.config.node_id ∷ [];
      responders = n.config.node_id ∷ [];
    },
    ground (arith, v, t, g),
    ground (arith, j, l),
  )

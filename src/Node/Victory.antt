-- ===== src/Node/Victory.antt =====
-- A campaign that wins, as a whole, and two campaigns at one term.
use arbitro_raft.Base.{
  ℕ, ◌≡◌, refl, ◌∙◌, sym, Bool, true, false, List, [], ◌∷◌, Option, ltb, arith, inl, inr,
  Bool-cases, contains, length, saturating_add, subst, ap,
}
use arbitro_raft.Types.{leader}
use arbitro_raft.Error.{Result, ok, err}
use arbitro_raft.Storage.{RaftStorage}
use arbitro_raft.Quorum.{quorum}
use arbitro_raft.Wire.{request_vote}
use arbitro_raft.Quorum.Overlap.{voter_majority_overlap}
use arbitro_raft.Node.{RaftNode, M, current_term, is_voter, on_storage, from_storage}
use arbitro_raft.Node.Rules.{bind_rule}
use arbitro_raft.Node.Custom.{CustomHandlers}
use arbitro_raft.Node.Campaign.{
  Drains, for_vote, own_vote, is_abandoned, collect_votes, init_voters, init_learners,
  broadcast_targets, initialize_leader_progress, become_leader, crown, gather_votes,
  claim_leadership, broadcast, request_at, run_campaign, become_candidate, campaign_once,
}
use arbitro_raft.Node.Tally.{drains_grant, drains_foreign, IsSound}
use arbitro_raft.Node.Elected.{IsElected, Won, collect_votes-Won}

-- The node `m` leads at the term, and a majority of the configuration elected it.
pub record IsVictory {S : Type 0} (self_id : ℕ) (joint : Option (List ℕ × List ℕ)) (peers : List ℕ)
    (term : ℕ) (drains : Drains) (m : RaftNode S) : Type 0 where
  pub leads : m.soft_state.role ≡ leader
  pub at_term : current_term m ≡ term
  pub granted : List ℕ
  pub elected : IsElected self_id joint peers (λ x. drains_grant term x drains) granted

-- What a campaign returns, in a node that started it as `n`.
abbrev pub Victory : {S : Type 0} → RaftNode S → ℕ → Drains → Result Bool → RaftNode S → Type 0
Victory n term drains (ok true) m =
    IsVictory n.config.node_id n.joint_peers n.config.peers term drains m
Victory n term drains (ok false) m = Unit {0}
Victory n term drains (err e) m = Unit {0}

-- What the set-up of the progress leaves alone.
record Crowned {S : Type 0} (n m : RaftNode S) : Type 0 where
  pub soft_state : m.soft_state ≡ n.soft_state
  pub hard_state : m.hard_state ≡ n.hard_state

module _ {S : Type 0} where
  init_voters-Crowned : (now : ℕ) (ps : List ℕ) (n : RaftNode S) → Crowned n (init_voters now ps n)
  unfolding init_voters
  init_voters-Crowned now [] n = record { soft_state = refl; hard_state = refl }
  init_voters-Crowned now (p ∷ ps) n =
      let r = init_voters-Crowned now ps (_) in
      record { soft_state = r.soft_state; hard_state = r.hard_state }

  init_learners-Crowned : (ps : List ℕ) (n : RaftNode S) → Crowned n (init_learners ps n)
  unfolding init_learners
  init_learners-Crowned [] n = record { soft_state = refl; hard_state = refl }
  init_learners-Crowned (p ∷ ps) n =
      let r = init_learners-Crowned ps (_) in
      record { soft_state = r.soft_state; hard_state = r.hard_state }

  initialize_leader_progress-Crowned :
      (now : ℕ) (n : RaftNode S) → Crowned n (initialize_leader_progress now n)
  unfolding initialize_leader_progress
  initialize_leader_progress-Crowned now n =
      let cleared : RaftNode S = record n { peer_progress = []; last_voter_contact = [] } in
      let voters = broadcast_targets n.config.node_id n.config.peers in
      let a = init_voters-Crowned now voters cleared in
      let b =
        init_learners-Crowned (broadcast_targets n.config.node_id n.config.learners)
          (init_voters now voters cleared) in
      record { soft_state = b.soft_state ∙ a.soft_state; hard_state = b.hard_state ∙ a.hard_state }

  become_leader-leads : (now : ℕ) (n : RaftNode S) → (become_leader now n).soft_state.role ≡ leader
  unfolding become_leader crown
  become_leader-leads now n =
      ap (λ s. s.role) (initialize_leader_progress-Crowned now (crown n)).soft_state

  become_leader-term :
      (now : ℕ) (n : RaftNode S) → current_term (become_leader now n) ≡ current_term n
  unfolding become_leader crown
  become_leader-term now n =
      ap (λ h. h.current_term) (initialize_leader_progress-Crowned now (crown n)).hard_state

  abandoned-term :
      (term : ℕ) (n : RaftNode S) → is_abandoned for_vote term n ≡ false → current_term n ≡ term
  unfolding is_abandoned
  abandoned-term term n e = ground (arith, e)

  claim_leadership-Victory :
      (now term : ℕ) (won : Bool) (drains : Drains) (n m : RaftNode S)
      → Won n.config.node_id n.joint_peers n.config.peers (λ x. drains_grant term x drains) (ok won)
      → Victory n term drains
          (claim_leadership now term won m).0
          (claim_leadership now term won m).1
  unfolding claim_leadership
  claim_leadership-Victory now term false drains n m w = tt
  claim_leadership-Victory now term true drains n m (granted, e) =
      elim (Bool-cases (is_abandoned for_vote term m)) [
        | inl lost ↦ rw (claim_leadership, lost) tt
        | inr kept ↦
            rw (claim_leadership, kept)
              (record {
                leads = become_leader-leads now m;
                at_term = become_leader-term now m ∙ abandoned-term term m kept;
                granted = granted;
                elected = e;
              })
      ]

  own_vote-IsSound :
      (source : ℕ → Bool) (n : RaftNode S)
      → is_voter n n.config.node_id ≡ true
      → IsSound n.config.node_id n.config.peers source (own_vote n)
  own_vote-IsSound source n v = record {
    is_distinct = refl;
    answered = λ x h. inl (ground (arith, h));
    are_voters = λ x h. subst (λ y. contains n.config.peers y ≡ true) (ground (arith, h)) v;
    are_grants = λ x h. inl (ground (arith, h));
  }

module _ {S : Type 0} ⦃st : RaftStorage S⦄ (handlers : CustomHandlers) (now : ℕ)
    (delivered : ℕ → Bool) where
  gather_votes-Victory :
      (possible : ℕ) (drains : Drains) (n : RaftNode S)
      → is_voter n n.config.node_id ≡ true
      → drains_foreign n.config.node_id drains ≡ true
      → Victory n
          (current_term n)
          drains
          (gather_votes handlers now possible drains n).0
          (gather_votes handlers now possible drains n).1
  unfolding gather_votes
  gather_votes-Victory possible drains n v f =
      let term = current_term n in
      let source : ℕ → Bool = λ x. drains_grant term x drains in
      let votes : M S Bool = collect_votes handlers for_vote term possible drains (own_vote n) in
      let w =
        collect_votes-Won handlers term possible n.config.node_id source drains (own_vote n) n
          (own_vote-IsSound source n v) f (λ x h. h) in
      elim (Bool-cases (ltb possible (quorum (length n.config.peers)))) [
        | inl few ↦ rw (gather_votes, few) tt
        | inr enough ↦
            rw (gather_votes, enough)
              (bind_rule (Victory n term drains) votes (claim_leadership now term) n (λ _ _. tt)
                λ won e.
                  claim_leadership-Victory now term won drains n (votes n).1
                    (subst (Won n.config.node_id n.joint_peers n.config.peers source) e w))
      ]

  run_campaign-Victory :
      (drains : Drains) (n : RaftNode S)
      → is_voter n n.config.node_id ≡ true
      → drains_foreign n.config.node_id drains ≡ true
      → Victory n
          (current_term n)
          drains
          (run_campaign handlers now delivered drains n).0
          (run_campaign handlers now delivered drains n).1
  unfolding run_campaign broadcast
  run_campaign-Victory drains n v f =
      let term = current_term n in
      bind_rule (Victory n term drains) (from_storage st.last_log_position) _ n (λ _ _. tt)
        λ position _.
          gather_votes-Victory _ drains
            (broadcast delivered (request_vote (request_at term position n)) n).1 v f

  campaign_outcome :
      (drains : Drains) (n : RaftNode S)
      → drains_foreign n.config.node_id drains ≡ true
      → Victory n
          (saturating_add (current_term n) 1)
          drains
          (campaign_once handlers now delivered drains n).0
          (campaign_once handlers now delivered drains n).1
  unfolding campaign_once become_candidate
  campaign_outcome drains n f = elim (Bool-cases (is_voter n n.config.node_id)) [
    | inr out ↦ rw (campaign_once, out) tt
    | inl v ↦
        let k = become_candidate n in
        rw (campaign_once, v)
          (bind_rule (Victory n (saturating_add (current_term n) 1) drains)
            (on_storage λ s. st.save_hard_state s k.hard_state) _ k (λ _ _. tt)
            λ _ _.
              run_campaign-Victory drains
                (record k { storage = (st.save_hard_state k.storage k.hard_state).1 }) v f)
  ]

  -- A campaign that wins, during which no frame claimed to come from the node itself, leaves the
  -- node leader at the next term, and a majority of its configuration, of both sets in a
  -- transition, each voter once, consists of the node and of voters whose grants at that term were
  -- among the frames.
  pub campaign_once-Victory :
      (drains : Drains) (n : RaftNode S)
      → drains_foreign n.config.node_id drains ≡ true
      → (campaign_once handlers now delivered drains n).0 ≡ ok true
      → IsVictory n.config.node_id n.joint_peers n.config.peers
          (saturating_add (current_term n) 1)
          drains
          (campaign_once handlers now delivered drains n).1
  campaign_once-Victory drains n f won =
      subst
        (λ r.
          Victory n (saturating_add (current_term n) 1) drains r
            (campaign_once handlers now delivered drains n).1)
        won (campaign_outcome drains n f)

-- Two elected sets of one configuration, when the voters of each gave their vote to its candidate.
same_candidate :
    (joint : Option (List ℕ × List ℕ)) (peers g h : List ℕ) (a b : ℕ) (p q : ℕ → Bool)
    (vote : ℕ → ℕ)
    → IsElected a joint peers p g
    → IsElected b joint peers q h
    → vote a ≡ a
    → vote b ≡ b
    → ((x : ℕ) → p x ≡ true → vote x ≡ a)
    → ((x : ℕ) → q x ≡ true → vote x ≡ b)
    → a ≡ b
same_candidate joint peers g h a b p q vote e f va vb vp vq =
    let (x, cg, ch) =
      voter_majority_overlap joint peers g h e.is_distinct f.is_distinct e.are_voters f.are_voters
        e.is_majority f.is_majority in
    let to_a : vote x ≡ a = elim (e.are_grants x cg) [
      | inl same ↦ rw same va
      | inr grant ↦ vp x grant
    ] in
    let to_b : vote x ≡ b = elim (f.are_grants x ch) [
      | inl same ↦ rw same vb
      | inr grant ↦ vq x grant
    ] in
    sym to_a ∙ to_b

-- Two campaigns that win at the same term, under the same configuration and without frames that
-- claim to come from the campaigning node, were of the same node, when each voter gave its vote of
-- the term to one candidate: to itself, if it campaigned.
pub election_safety :
    {S : Type 0} ⦃st : RaftStorage S⦄ (handlers₁ handlers₂ : CustomHandlers) (now₁ now₂ : ℕ)
    (delivered₁ delivered₂ : ℕ → Bool) (drains₁ drains₂ : Drains) (n₁ n₂ : RaftNode S)
    (vote : ℕ → ℕ) (term : ℕ)
    → n₁.joint_peers ≡ n₂.joint_peers
    → n₁.config.peers ≡ n₂.config.peers
    → drains_foreign n₁.config.node_id drains₁ ≡ true
    → drains_foreign n₂.config.node_id drains₂ ≡ true
    → (campaign_once handlers₁ now₁ delivered₁ drains₁ n₁).0 ≡ ok true
    → (campaign_once handlers₂ now₂ delivered₂ drains₂ n₂).0 ≡ ok true
    → saturating_add (current_term n₁) 1 ≡ term
    → saturating_add (current_term n₂) 1 ≡ term
    → vote n₁.config.node_id ≡ n₁.config.node_id
    → vote n₂.config.node_id ≡ n₂.config.node_id
    → ((x : ℕ) → drains_grant term x drains₁ ≡ true → vote x ≡ n₁.config.node_id)
    → ((x : ℕ) → drains_grant term x drains₂ ≡ true → vote x ≡ n₂.config.node_id)
    → n₁.config.node_id ≡ n₂.config.node_id
election_safety handlers₁ handlers₂ now₁ now₂ delivered₁ delivered₂ drains₁ drains₂ n₁ n₂ vote term
      j p f₁ f₂ w₁ w₂ t₁ t₂ s₁ s₂ g₁ g₂ =
    let a = campaign_once-Victory handlers₁ now₁ delivered₁ drains₁ n₁ f₁ w₁ in
    let b = campaign_once-Victory handlers₂ now₂ delivered₂ drains₂ n₂ f₂ w₂ in
    let source₁ : ℕ → Bool = λ x. drains_grant term x drains₁ in
    let source₂ : ℕ → Bool = λ x. drains_grant term x drains₂ in
    let e : IsElected n₁.config.node_id n₂.joint_peers n₂.config.peers source₁ a.granted =
      rw (sym j, sym p, sym t₁) a.elected in
    let f : IsElected n₂.config.node_id n₂.joint_peers n₂.config.peers source₂ b.granted =
      rw (sym t₂) b.elected in
    same_candidate n₂.joint_peers n₂.config.peers a.granted b.granted n₁.config.node_id
      n₂.config.node_id source₁ source₂ vote e f s₁ s₂ g₁ g₂

-- ===== src/Node/Elected.antt =====
-- What a campaign that wins rests on: a majority of grants at its term.
use arbitro_raft.Base.{
  ℕ, ◌≡◌, refl, sym, Bool, true, false, not, ◌&&◌, List, [], ◌∷◌, Option, none, some, ltb, arith,
  inl, inr, ◌⊎◌, Bool-cases, Option-cases, contains, distinct, length, subst, if◌then◌else◌,
}
use arbitro_raft.Types.{is_candidate_role}
use arbitro_raft.Error.{Result, ok, err}
use arbitro_raft.Storage.{RaftStorage}
use arbitro_raft.Quorum.{voter_majority}
use arbitro_raft.Node.{RaftNode, M}
use arbitro_raft.Node.Rules.{bind_node, bind_rule}
use arbitro_raft.Node.Custom.{CustomHandlers}
use arbitro_raft.Node.Inbound.{handle_inbound_tolerant}
use arbitro_raft.Node.Campaign.{
  Frame, Drains, Ballot, for_vote, for_pre_vote, response_of, Tally, majority_of, is_abandoned,
  no_frames, process_responses, handle_request, process_requests, after_responses, take_batch,
  collect_votes,
}
use arbitro_raft.Node.Stays.{Stays, Stays-refl, Stays-trans, handle_inbound-Stays}
use arbitro_raft.Node.Tally.{
  drains_grant, drains_foreign, IsSound, Tallied, process_responses-Tallied,
}

-- The voters of `granted` are a majority of the configuration, each once, and all but the node
-- itself have a grant among the frames.
pub record IsElected (self_id : ℕ) (joint : Option (List ℕ × List ℕ)) (peers : List ℕ)
    (source : ℕ → Bool) (granted : List ℕ) : Type 0 where
  pub is_majority : voter_majority joint peers granted ≡ true
  pub is_distinct : distinct granted ≡ true
  pub are_voters : (x : ℕ) → contains granted x ≡ true → contains peers x ≡ true
  pub are_grants : (x : ℕ) → contains granted x ≡ true → (x ≡ self_id) ⊎ (source x ≡ true)

module _ {S : Type 0} ⦃st : RaftStorage S⦄ where
  handle_request-Stays :
      (handlers : CustomHandlers) (ballot : Ballot) (f : Frame) (n : RaftNode S)
      → Stays n (handle_request handlers ballot f n).1
  unfolding handle_inbound_tolerant
  handle_request-Stays handlers for_vote f n = handle_inbound-Stays handlers f.now f.inbound n
  handle_request-Stays handlers for_pre_vote f n = handle_inbound-Stays handlers f.now f.inbound n

  process_requests-Stays :
      (handlers : CustomHandlers) (ballot : Ballot) (fs : List Frame) (n : RaftNode S)
      → Stays n (process_requests handlers ballot fs n).1
  unfolding process_requests
  process_requests-Stays handlers ballot [] n = Stays-refl n
  process_requests-Stays handlers ballot (f ∷ fs) n =
      elim (Option-cases (response_of ballot f.inbound.message)) [
        | inr (resp, e) ↦ rw (process_requests, e) (process_requests-Stays handlers ballot fs n)
        | inl e ↦
            let one = handle_request-Stays handlers ballot f n in
            rw (process_requests, e)
              (bind_node (Stays n) (handle_request handlers ballot f)
                (λ _. process_requests handlers ballot fs) n one
                λ _ _. Stays-trans one (
                  process_requests-Stays handlers ballot fs (handle_request handlers ballot f n).1))
      ]

-- A result of the collection: a victory rests on an elected set.
abbrev pub Won : ℕ → Option (List ℕ × List ℕ) → List ℕ → (ℕ → Bool) → Result Bool → Type 0
Won self_id joint peers source (ok true) =
    (granted : List ℕ) × IsElected self_id joint peers source granted
Won self_id joint peers source (ok false) = Unit {0}
Won self_id joint peers source (err e) = Unit {0}

module _ {S : Type 0} where
  IsSound-Won :
      (self_id : ℕ) (source : ℕ → Bool) (n : RaftNode S) (t : Tally) (b : Bool)
      → IsSound self_id n.config.peers source t
      → majority_of n t.granted ≡ b
      → Won self_id n.joint_peers n.config.peers source (ok b)
  IsSound-Won self_id source n t true s e = (
    t.granted,
    record {
      is_majority = e;
      is_distinct = s.is_distinct;
      are_voters = s.are_voters;
      are_grants = s.are_grants;
    },
  )
  IsSound-Won self_id source n t false s e = tt

  no_frames-Won :
      (self_id : ℕ) (source : ℕ → Bool) (n : RaftNode S)
      → Won self_id n.joint_peers n.config.peers source (no_frames for_vote n).0
  unfolding no_frames
  no_frames-Won self_id source n = tt

  abandoned-candidate :
      (term : ℕ) (n : RaftNode S)
      → is_abandoned for_vote term n ≡ false
      → is_candidate_role n.soft_state.role ≡ true
  unfolding is_abandoned
  abandoned-candidate term n e = ground (arith, e)

module _ (self_id term : ℕ) (d : Result (List Frame)) (ds : Drains) where
  drains_foreign-head :
      drains_foreign self_id (d ∷ ds) ≡ true → drains_foreign self_id (d ∷ []) ≡ true
  drains_foreign-head b = ground (arith, b)

  drains_foreign-tail : drains_foreign self_id (d ∷ ds) ≡ true → drains_foreign self_id ds ≡ true
  drains_foreign-tail b = ground (arith, b)

  drains_grant-head :
      (x : ℕ) → drains_grant term x (d ∷ []) ≡ true → drains_grant term x (d ∷ ds) ≡ true
  drains_grant-head x h = ground (arith, h)

  drains_grant-tail : (x : ℕ) → drains_grant term x ds ≡ true → drains_grant term x (d ∷ ds) ≡ true
  drains_grant-tail x h = ground (arith, h)

module _ {S : Type 0} ⦃st : RaftStorage S⦄ (handlers : CustomHandlers) (term possible self_id : ℕ)
    (source : ℕ → Bool) where
  -- What the rest of the loop gives from every node of the same configuration.
  abbrev Continues : RaftNode S → (Tally → M S Bool) → Type 0
  Continues n others =
      (t : Tally) (m : RaftNode S)
      → m.config ≡ n.config
      → m.joint_peers ≡ n.joint_peers
      → IsSound self_id m.config.peers source t
      → Won self_id m.joint_peers m.config.peers source (others t m).0

  after_responses-Won :
      (fs : List Frame) (others : Tally → M S Bool) (n m : RaftNode S) (r : Option Tally)
      → Tallied self_id source n (ok r) m
      → Continues n others
      → Won self_id n.joint_peers n.config.peers source
          (after_responses handlers for_vote term fs others r m).0
  unfolding after_responses
  after_responses-Won fs others n m none h next = tt
  after_responses-Won fs others n m (some t) (s, same) next =
      rw (same) (elim (Bool-cases (majority_of n t.granted)) [
        | inl e ↦ rw (after_responses, e) (IsSound-Won self_id source n t true s e)
        | inr e ↦
            rw (after_responses, e)
              (bind_rule (λ r _. Won self_id n.joint_peers n.config.peers source r)
                (process_requests handlers for_vote fs) _ n (λ _ _. tt)
                λ _ _.
                  go (process_requests handlers for_vote fs n).1
                    (process_requests-Stays handlers for_vote fs n))
      ])
    where
      go :
          (k : RaftNode S)
          → Stays n k
          → Won self_id n.joint_peers n.config.peers source
              (if is_abandoned for_vote term k then (ok false, k) else others t k).0
      go k stays = elim (Bool-cases (is_abandoned for_vote term k)) [
        | inl e ↦ rw e tt
        | inr e ↦
            let c = abandoned-candidate term k e in
            let sound = subst (λ g. IsSound self_id g.peers source t) (sym (stays.config c)) s in
            rw (e, sym (stays.config c), sym (stays.joint_peers c))
              (next t k (stays.config c) (stays.joint_peers c) sound)
      ]

  take_batch-Won :
      (others : Tally → M S Bool) (t : Tally) (n : RaftNode S) (d : Result (List Frame))
      → IsSound self_id n.config.peers source t
      → drains_foreign self_id (d ∷ []) ≡ true
      → ((x : ℕ) → drains_grant term x (d ∷ []) ≡ true → source x ≡ true)
      → Continues n others
      → Won self_id n.joint_peers n.config.peers source
          (take_batch handlers for_vote term others t d n).0
  unfolding take_batch
  take_batch-Won others t n (err e) s b g next = tt
  take_batch-Won others t n (ok []) s b g next = no_frames-Won self_id source n
  take_batch-Won others t n (ok (f ∷ fs)) s b g next =
      let pass : M S (Option Tally) = process_responses for_vote term (f ∷ fs) t in
      let one =
        process_responses-Tallied self_id source term (f ∷ fs) t n s (ground (arith, b))
          (λ x h. g x (ground (arith, h))) in
      bind_rule (λ r _. Won self_id n.joint_peers n.config.peers source r) pass _ n (λ _ _. tt)
        λ r e.
          after_responses-Won (f ∷ fs) others n (pass n).1 r
            (subst (λ r. Tallied self_id source n r (pass n).1) e one) next

  pub collect_votes-Won :
      (ds : Drains) (t : Tally) (n : RaftNode S)
      → IsSound self_id n.config.peers source t
      → drains_foreign self_id ds ≡ true
      → ((x : ℕ) → drains_grant term x ds ≡ true → source x ≡ true)
      → Won self_id n.joint_peers n.config.peers source
          (collect_votes handlers for_vote term possible ds t n).0
  unfolding collect_votes
  collect_votes-Won [] t n s b g =
      elim (Bool-cases (not (majority_of n t.granted) && ltb (length t.responders) possible)) [
        | inl e ↦ rw (collect_votes, e) (no_frames-Won self_id source n)
        | inr e ↦ rw (collect_votes, e) (IsSound-Won self_id source n t _ s refl)
      ]
  collect_votes-Won (d ∷ ds) t n s b g =
      elim (Bool-cases (not (majority_of n t.granted) && ltb (length t.responders) possible)) [
        | inr e ↦ rw (collect_votes, e) (IsSound-Won self_id source n t _ s refl)
        | inl e ↦
            rw (collect_votes, e)
              (take_batch-Won (collect_votes handlers for_vote term possible ds) t n d s
                (drains_foreign-head self_id term d ds b)
                (λ x h. g x (drains_grant-head self_id term d ds x h))
                λ t' m _ _ s'.
                  collect_votes-Won ds t' m s' (drains_foreign-tail self_id term d ds b)
                    (λ x h. g x (drains_grant-tail self_id term d ds x h)))
      ]

-- ===== src/Node/Vote.antt =====
-- The vote of a node: what a granted vote rests on, and that a node grants one per term.
use arbitro_raft.Base.{
  ℕ, ◌≡◌, refl, sym, ◌∙◌, true, false, List, [], ◌∷◌, ◌++◌, some, arith, ltb, length, length-append,
  ap, inl, inr, ◌⊎◌, ◌≢◌, Bool-cases,
}
use arbitro_raft.Types.{HardState}
use arbitro_raft.Base.{Bool, ◌<◌, u64_max}
use arbitro_raft.Wire.{InboundRaftMessage}
use arbitro_raft.Node.Custom.{CustomHandlers}
use arbitro_raft.Node.Inbound.{handle_inbound}
use arbitro_raft.Node.Received.{handle_inbound-Monotone}
use arbitro_raft.Node.Campaign.{Drains, campaign_once, campaign_pre_vote}
use arbitro_raft.Node.CampaignSteps.{campaign_once-Monotone, campaign_pre_vote-Monotone}
use arbitro_raft.Error.{RaftError, Result, ok, err}
use arbitro_raft.Storage.{RaftStorage}
use arbitro_raft.Wire.{
  RequestVote, RequestVoteResp, AppendEntries, AppendEntriesResp, RaftMessage, request_vote_resp,
}
use arbitro_raft.Node.{
  RaftNode, current_term, when, step_down, demote_to_follower_keep_term, send_message,
}
use arbitro_raft.Node.Rules.{bind_rule}
use arbitro_raft.Node.Append.{handle_append_entries, handle_append_entries_response}
use arbitro_raft.Node.Commit.{try_advance_commit_index}
use arbitro_raft.Node.Election.{
  can_vote, record_vote, answer_vote, handle_request_vote, handle_request_vote_response,
  handle_pre_vote, handle_pre_vote_response,
}
use arbitro_raft.Node.Snapshot.{handle_install_snapshot, handle_install_snapshot_response}
use arbitro_raft.Node.SnapshotSteps.{
  handle_install_snapshot-Monotone, handle_install_snapshot_response-Monotone,
}
use arbitro_raft.Wire.{InstallSnapshot, InstallSnapshotResp}
use arbitro_raft.Node.Monotone.{
  Monotone, Monotone-refl, Monotone-trans, handle_request_vote-Monotone,
  handle_request_vote_response-Monotone, handle_pre_vote-Monotone,
  handle_pre_vote_response-Monotone, handle_append_entries-Monotone,
  handle_append_entries_response-Monotone, try_advance_commit_index-Monotone,
}

module _ {S : Type 0} ⦃st : RaftStorage S⦄ where
  -- One call of a handler or of the dispatch, one campaign or one commit advance, with any message,
  -- sender and instant.
  pub data NodeStep (n : RaftNode S) : RaftNode S → Type 0 where
    on_request_vote : (from : ℕ) (msg : RequestVote) → NodeStep n (handle_request_vote from msg n).1
    on_request_vote_resp :
        (from : ℕ) (resp : RequestVoteResp)
        → NodeStep n (handle_request_vote_response from resp n).1
    on_pre_vote : (now from : ℕ) (msg : RequestVote) → NodeStep n (handle_pre_vote now from msg n).1
    on_pre_vote_resp :
        (from : ℕ) (resp : RequestVoteResp) → NodeStep n (handle_pre_vote_response from resp n).1
    on_append_entries :
        (now from : ℕ) (msg : AppendEntries) (payload : List ℕ)
        → NodeStep n (handle_append_entries now from msg payload n).1
    on_append_entries_resp :
        (from : ℕ) (resp : AppendEntriesResp)
        → NodeStep n (handle_append_entries_response from resp n).1
    on_install_snapshot :
        (now from : ℕ) (msg : InstallSnapshot) (payload : List ℕ)
        → NodeStep n (handle_install_snapshot now from msg payload n).1
    on_install_snapshot_resp :
        (from : ℕ) (resp : InstallSnapshotResp)
        → NodeStep n (handle_install_snapshot_response from resp n).1
    on_inbound :
        (handlers : CustomHandlers) (now : ℕ) (inbound : InboundRaftMessage)
        → NodeStep n (handle_inbound handlers now inbound n).1
    on_campaign :
        (handlers : CustomHandlers) (now : ℕ) (delivered : ℕ → Bool) (drains : Drains)
        → current_term n < u64_max
        → NodeStep n (campaign_once handlers now delivered drains n).1
    on_campaign_pre_vote :
        (handlers : CustomHandlers) (delivered : ℕ → Bool) (drains : Drains)
        → NodeStep n (campaign_pre_vote handlers delivered drains n).1
    on_advance : NodeStep n (try_advance_commit_index n).1

  pub data Reach (n : RaftNode S) : RaftNode S → Type 0 where
    here : Reach n n
    next : {m k : RaftNode S} → Reach n m → NodeStep m k → Reach n k

  pub NodeStep-Monotone : {n m : RaftNode S} → NodeStep n m → Monotone n m
  NodeStep-Monotone {n} (on_request_vote from msg) = handle_request_vote-Monotone from msg n
  NodeStep-Monotone {n} (on_request_vote_resp from resp) =
      handle_request_vote_response-Monotone from resp n
  NodeStep-Monotone {n} (on_pre_vote now from msg) = handle_pre_vote-Monotone now from msg n
  NodeStep-Monotone {n} (on_pre_vote_resp from resp) = handle_pre_vote_response-Monotone from resp n
  NodeStep-Monotone {n} (on_append_entries now from msg payload) =
      handle_append_entries-Monotone now from msg payload n
  NodeStep-Monotone {n} (on_append_entries_resp from resp) =
      handle_append_entries_response-Monotone from resp n
  NodeStep-Monotone {n} (on_install_snapshot now from msg payload) =
      handle_install_snapshot-Monotone now from msg payload n
  NodeStep-Monotone {n} (on_install_snapshot_resp from resp) =
      handle_install_snapshot_response-Monotone from resp n
  NodeStep-Monotone {n} (on_inbound handlers now inbound) =
      handle_inbound-Monotone handlers now inbound n
  NodeStep-Monotone {n} (on_campaign handlers now delivered drains h) =
      campaign_once-Monotone handlers now delivered drains n h
  NodeStep-Monotone {n} (on_campaign_pre_vote handlers delivered drains) =
      campaign_pre_vote-Monotone handlers delivered drains n
  NodeStep-Monotone {n} on_advance = try_advance_commit_index-Monotone n

  -- Over any sequence of handler calls, dispatched messages, commit advances, pre-vote campaigns and
  -- campaigns below the last term, also where calls fail, the term does not fall, a vote stays while
  -- its term does, and the published commit index stays that of the node.
  pub Reach-Monotone : {n m : RaftNode S} → Reach n m → Monotone n m
  Reach-Monotone {n} here = Monotone-refl n
  Reach-Monotone (next r s) = Monotone-trans (Reach-Monotone r) (NodeStep-Monotone s)

-- The save is durable: what was saved is what is loaded.
abbrev pub IsDurable : {S : Type 0} → RaftStorage S → Type 0
IsDurable {S} st =
    (s : S) (h : HardState)
    → (st.save_hard_state s h).0 ≡ ok tt
    → st.load_hard_state (st.save_hard_state s h).1 ≡ ok h

pub snoc-injective : {A : Type 0} (xs : List A) {a b : A} → xs ++ a ∷ [] ≡ xs ++ b ∷ [] → a ≡ b
snoc-injective [] e = cc
snoc-injective (x ∷ xs) e = snoc-injective xs (cc)

pub snoc-ne : {A : Type 0} (xs : List A) (a : A) → xs ≡ xs ++ a ∷ [] → ⊥
snoc-ne xs a e = omega (arith, ap length e, length-append xs (a ∷ []))

-- The answer that grants the vote, at the term of the request.
abbrev pub granted_reply : ℕ → RequestVote → ℕ × RaftMessage
granted_reply from msg = (from, request_vote_resp (record { term = msg.term; vote_granted = 1 }))

pub Result-cases {ℓ} :
    {A : Type ℓ} (r : Result A) → ((e : RaftError) × (r ≡ err e)) ⊎ ((a : A) × (r ≡ ok a))
Result-cases (ok a) = inr (a, refl)
Result-cases (err e) = inl (e, refl)

no_grant :
    {from t : ℕ} (msg : RequestVote)
    → ◌≡◌ {A = ℕ × RaftMessage}
        (from, request_vote_resp (record { term = t; vote_granted = 0 }))
        (granted_reply from msg)
    → ⊥
no_grant msg e = ground (arith, e)

module _ {S : Type 0} ⦃st : RaftStorage S⦄ where
  -- The call answers the request with a granted vote at the term of the request.
  abbrev pub Grants : ℕ → RequestVote → RaftNode S → Type 0
  Grants from msg n =
      (handle_request_vote from msg n).1.outbox ≡ n.outbox ++ granted_reply from msg ∷ []

  raised-outbox :
      (t : ℕ) (n : RaftNode S) → (when (ltb (current_term n) t) (step_down t) n).1.outbox ≡ n.outbox
  unfolding step_down demote_to_follower_keep_term
  raised-outbox t n = ground arith

  -- What a granted vote leaves behind.
  abbrev Recorded : RequestVote → RaftNode S → Type 0
  Recorded msg m =
      (m.hard_state ≡ record { current_term = msg.term; voted_for = some msg.candidate_id })
      × (st.load_hard_state m.storage ≡ ok m.hard_state)

  saved_vote :
      (from : ℕ) (msg : RequestVote) (n : RaftNode S) (position : ℕ × ℕ)
      → IsDurable st
      → st.last_log_position n.storage ≡ ok position
      → can_vote msg position n ≡ true
      → n.outbox ≢ (answer_vote from msg n).1.outbox
      → Recorded msg (answer_vote from msg n).1
  unfolding answer_vote record_vote can_vote send_message
  saved_vote from msg n position d p c g = ground (
    arith,
    d n.storage (record { current_term = current_term n; voted_for = some msg.candidate_id }),
  )

  refused :
      (from : ℕ) (msg : RequestVote) (n : RaftNode S) (position : ℕ × ℕ)
      → st.last_log_position n.storage ≡ ok position
      → can_vote msg position n ≡ false
      → (answer_vote from msg n).1.outbox
        ≡ n.outbox
          ++ (from, request_vote_resp (record { term = current_term n; vote_granted = 0 })) ∷ []
  unfolding answer_vote send_message
  refused from msg n position p c = ground (arith, p, c)

  answered :
      (from : ℕ) (msg : RequestVote) (n : RaftNode S)
      → IsDurable st
      → (answer_vote from msg n).1.outbox ≡ n.outbox ++ granted_reply from msg ∷ []
      → Recorded msg (answer_vote from msg n).1
  answered from msg n d g = elim (Result-cases (st.last_log_position n.storage)) [
    | inl (e, p) ↦
        absurd (snoc-ne n.outbox (granted_reply from msg) (unfold answer_vote in ground (arith, p)))
    | inr (position, p) ↦ elim (Bool-cases (can_vote msg position n)) [
      | inl c ↦
          saved_vote from msg n position d p c
            (λ e. snoc-ne n.outbox (granted_reply from msg) (e ∙ g))
      | inr c ↦
          absurd
            (no_grant msg (snoc-injective n.outbox (sym (refused from msg n position p c) ∙ g)))
    ]
  ]

  -- When the saves are durable, a call that grants the vote leaves it recorded for the candidate at
  -- the term of the request, and the storage loads it back.
  pub Grants-Recorded :
      (from : ℕ) (msg : RequestVote) (n : RaftNode S)
      → IsDurable st
      → Grants from msg n
      → Recorded msg (handle_request_vote from msg n).1
  unfolding handle_request_vote
  Grants-Recorded from msg n d g =
      let up = when (ltb (current_term n) msg.term) (step_down msg.term) in
      let same = raised-outbox msg.term n in
      bind_rule (λ _ m. m.outbox ≡ n.outbox ++ granted_reply from msg ∷ [] → Recorded msg m) up
        (λ _. answer_vote from msg) n
        (λ _ _ h. absurd (snoc-ne n.outbox (granted_reply from msg) (sym same ∙ h)))
        (λ _ _ h.
          answered from msg (up n).1 d
            (h ∙ ap (λ box. box ++ granted_reply from msg ∷ []) (sym same)))
        g

  -- After a node whose saves are durable granted its vote, then took any sequence of handler calls,
  -- dispatched messages, commit advances, pre-vote campaigns and campaigns below the last term, and
  -- granted a vote again at the same term, both votes went to the same candidate.
  pub one_vote_per_term :
      (from₁ from₂ : ℕ) (msg₁ msg₂ : RequestVote) (n m : RaftNode S)
      → IsDurable st
      → Grants from₁ msg₁ n
      → Reach (handle_request_vote from₁ msg₁ n).1 m
      → Grants from₂ msg₂ m
      → msg₁.term ≡ msg₂.term
      → msg₁.candidate_id ≡ msg₂.candidate_id
  one_vote_per_term from₁ from₂ msg₁ msg₂ n m d g₁ r g₂ same =
      let (a, _) = Grants-Recorded from₁ msg₁ n d g₁ in
      let (b, _) = Grants-Recorded from₂ msg₂ m d g₂ in
      let kept =
        (Reach-Monotone (next r (on_request_vote from₂ msg₂))).vote_kept msg₁.candidate_id in
      ground (arith, a, b, kept)

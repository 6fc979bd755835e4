-- ===== src/Node/Received.antt =====
-- The dispatch of an inbound message respects what every handler respects.
use arbitro_raft.Base.{ℕ, List, ltb, arith, inl, inr, Bool-cases}
use arbitro_raft.Storage.{RaftStorage}
use arbitro_raft.Wire.{
  RaftMessage, InboundRaftMessage, request_vote, request_vote_resp, pre_vote, pre_vote_resp,
  append_entries, append_entries_vectored, append_entries_resp, install_snapshot,
  install_snapshot_resp, timeout_now, TimeoutNow, custom, custom_response,
}
use arbitro_raft.Node.{RaftNode, current_term, when, step_down, modify}
use arbitro_raft.Node.Rules.{bind_node}
use arbitro_raft.Node.SnapshotSteps.{
  handle_install_snapshot-Monotone, handle_install_snapshot_response-Monotone,
}
use arbitro_raft.Node.Transfer.{handle_timeout_now, arm_campaign}
use arbitro_raft.Node.Custom.{CustomHandlers, handle_custom_message, handle_custom_response}
use arbitro_raft.Wire.{append_entries_seeded, append_entries_seeded_vectored}
use arbitro_raft.Node.SeededSteps.{handle_append_entries_seeded-Monotone}
use arbitro_raft.Node.Inbound.{handle_inbound, dispatch_message, stamp_contact}
use arbitro_raft.Node.Monotone.{
  Monotone, Monotone-refl, Monotone-trans, raise_term-Monotone, handle_request_vote-Monotone,
  handle_request_vote_response-Monotone, handle_pre_vote-Monotone,
  handle_pre_vote_response-Monotone, handle_append_entries-Monotone,
  handle_append_entries_response-Monotone,
}

module _ {S : Type 0} where
  stamp_contact-Monotone :
      (now : ℕ) (inbound : InboundRaftMessage) (n : RaftNode S)
      → Monotone n (stamp_contact now inbound n)
  unfolding stamp_contact
  stamp_contact-Monotone now inbound n = ground arith

  arm_campaign-Monotone : (from : ℕ) (n : RaftNode S) → Monotone n (arm_campaign from n)
  unfolding arm_campaign
  arm_campaign-Monotone from n = ground arith

  handle_custom_message-Monotone :
      (handlers : CustomHandlers) (from : ℕ) (payload : List ℕ) (n : RaftNode S)
      → Monotone n (handle_custom_message handlers from payload n).1
  unfolding handle_custom_message
  handle_custom_message-Monotone handlers from payload n = ground arith

  handle_custom_response-Monotone :
      (handlers : CustomHandlers) (from : ℕ) (payload : List ℕ) (n : RaftNode S)
      → Monotone n (handle_custom_response handlers from payload n).1
  unfolding handle_custom_response
  handle_custom_response-Monotone handlers from payload n = ground arith

module _ {S : Type 0} ⦃st : RaftStorage S⦄ where
  handle_timeout_now-Monotone :
      (from : ℕ) (msg : TimeoutNow) (n : RaftNode S) → Monotone n (handle_timeout_now from msg n).1
  unfolding handle_timeout_now
  handle_timeout_now-Monotone from msg n = elim (Bool-cases (ltb msg.term (current_term n))) [
    | inl old ↦ rw (old, handle_timeout_now) (Monotone-refl n)
    | inr new ↦
        let up = raise_term-Monotone msg.term n in
        rw (new, handle_timeout_now)
          (bind_node (Monotone n) (when (ltb (current_term n) msg.term) (step_down msg.term))
            (λ _. modify (arm_campaign from)) n up
            λ _ _. Monotone-trans up (arm_campaign-Monotone from _))
  ]

  dispatch_message-Monotone :
      (handlers : CustomHandlers) (now from : ℕ) (msg : RaftMessage) (n : RaftNode S)
      → Monotone n (dispatch_message handlers now from msg n).1
  unfolding dispatch_message
  dispatch_message-Monotone handlers now from (append_entries msg payload) n =
      handle_append_entries-Monotone now from msg payload n
  dispatch_message-Monotone handlers now from (append_entries_seeded msg headers payloads) n =
      handle_append_entries_seeded-Monotone now from msg headers payloads n
  dispatch_message-Monotone handlers now from (append_entries_seeded_vectored msg headers payloads)
        n =
      Monotone-refl n
  dispatch_message-Monotone handlers now from (append_entries_resp msg) n =
      handle_append_entries_response-Monotone from msg n
  dispatch_message-Monotone handlers now from (custom payload) n =
      handle_custom_message-Monotone handlers from payload n
  dispatch_message-Monotone handlers now from (custom_response payload) n =
      handle_custom_response-Monotone handlers from payload n
  dispatch_message-Monotone handlers now from (request_vote msg) n =
      handle_request_vote-Monotone from msg n
  dispatch_message-Monotone handlers now from (request_vote_resp msg) n =
      handle_request_vote_response-Monotone from msg n
  dispatch_message-Monotone handlers now from (pre_vote msg) n =
      handle_pre_vote-Monotone now from msg n
  dispatch_message-Monotone handlers now from (pre_vote_resp msg) n =
      handle_pre_vote_response-Monotone from msg n
  dispatch_message-Monotone handlers now from (install_snapshot msg payload) n =
      handle_install_snapshot-Monotone now from msg payload n
  dispatch_message-Monotone handlers now from (install_snapshot_resp msg) n =
      handle_install_snapshot_response-Monotone from msg n
  dispatch_message-Monotone handlers now from (timeout_now msg) n =
      handle_timeout_now-Monotone from msg n
  dispatch_message-Monotone handlers now from (append_entries_vectored msg entries) n =
      Monotone-refl n

  pub handle_inbound-Monotone :
      (handlers : CustomHandlers) (now : ℕ) (inbound : InboundRaftMessage) (n : RaftNode S)
      → Monotone n (handle_inbound handlers now inbound n).1
  unfolding handle_inbound
  handle_inbound-Monotone handlers now inbound n =
      Monotone-trans (stamp_contact-Monotone now inbound n) (
        dispatch_message-Monotone handlers now inbound.from inbound.message
          (stamp_contact now inbound n))

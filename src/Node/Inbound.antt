-- ===== src/Node/Inbound.antt =====
-- src/api/node/mod.rs: the dispatch of an inbound message to its handler, the contact stamps of the
-- quorum lease, and the lease itself.
use arbitro_raft.Base.{
  ℕ, ◌-◌, max, Bool, false, not, ◌&&◌, List, [], ◌∷◌, Option, none, some, ltb, ◌==◌, if◌then◌else◌,
}
use arbitro_raft.Error.{protocol, is_fatal, Result, ok, err}
use arbitro_raft.Storage.{RaftStorage}
use arbitro_raft.PeerMap.{insert, get}
use arbitro_raft.Quorum.{voter_majority}
use arbitro_raft.Wire.{
  RaftMessage, InboundRaftMessage, message_term, request_vote, request_vote_resp, pre_vote,
  pre_vote_resp, append_entries, append_entries_vectored, append_entries_resp, install_snapshot,
  install_snapshot_resp, timeout_now, custom, custom_response,
}
use arbitro_raft.Node.{RaftNode, M, fail, is_leader, current_term, is_voter}
use arbitro_raft.Node.Append.{handle_append_entries, handle_append_entries_response}
use arbitro_raft.Node.Seeded.{handle_append_entries_seeded}
use arbitro_raft.Wire.{append_entries_seeded, append_entries_seeded_vectored}
use arbitro_raft.Node.Election.{
  handle_request_vote, handle_request_vote_response, handle_pre_vote, handle_pre_vote_response,
}
use arbitro_raft.Node.Snapshot.{handle_install_snapshot, handle_install_snapshot_response}
use arbitro_raft.Node.Transfer.{handle_timeout_now}
use arbitro_raft.Node.Custom.{CustomHandlers, handle_custom_message, handle_custom_response}

-- `message_term(&inbound.message) == Some(self.hard_state.current_term)`.
abbrev pub is_term : Option ℕ → ℕ → Bool
is_term none term = false
is_term (some t) term = t == term

-- A fatal error propagates; the frame of any other is dropped.
unfoldable pub tolerate : Result (Unit {0}) → Result (Unit {0})
unfolding is_fatal
tolerate (ok u) = ok tt
tolerate (err e) = if is_fatal e then err e else ok tt

module _ {S : Type 0} where
  unfoldable pub counts_as_contact : InboundRaftMessage → RaftNode S → Bool
  unfolding message_term
  counts_as_contact inbound n =
      is_leader n
      && (is_voter n inbound.from && is_term (message_term inbound.message) (current_term n))

  unfoldable pub stamp_contact : ℕ → InboundRaftMessage → RaftNode S → RaftNode S
  unfolding counts_as_contact
  stamp_contact now inbound n =
      if counts_as_contact inbound n
      then record n { last_voter_contact = insert n.last_voter_contact inbound.from now }
      else n

  -- `election_timeout`, in milliseconds.
  unfoldable pub election_timeout : RaftNode S → ℕ
  election_timeout n = max n.config.timing.election_max_ms 1

  -- A contact of the peer that is younger than the timeout.
  unfoldable pub is_recent : ℕ → RaftNode S → ℕ → Bool
  unfolding election_timeout
  is_recent now n peer = elim (get n.last_voter_contact peer) [
    | none ↦ false
    | some last_contact ↦ ltb (now - last_contact) (election_timeout n)
  ]

  -- The loop over the voters other than the node.
  unfoldable pub recent_peers : ℕ → RaftNode S → List ℕ → List ℕ
  unfolding is_recent
  recent_peers now n [] = []
  recent_peers now n (peer ∷ peers) =
      let others = recent_peers now n peers in
      if not (peer == n.config.node_id) && is_recent now n peer then peer ∷ others else others

  unfoldable pub check_quorum_active : ℕ → RaftNode S → Bool
  unfolding recent_peers voter_majority
  check_quorum_active now n =
      voter_majority n.joint_peers n.config.peers
        (n.config.node_id ∷ recent_peers now n n.config.peers)

module _ {S : Type 0} ⦃st : RaftStorage S⦄ (handlers : CustomHandlers) where
  -- The `match` on the message.
  unfoldable pub dispatch_message : ℕ → ℕ → RaftMessage → M S (Unit {0})
  dispatch_message now from (append_entries msg payload) =
      handle_append_entries now from msg payload
  dispatch_message now from (append_entries_seeded msg headers payloads) =
      handle_append_entries_seeded now from msg headers payloads
  dispatch_message now from (append_entries_resp msg) = handle_append_entries_response from msg
  dispatch_message now from (custom payload) = handle_custom_message handlers from payload
  dispatch_message now from (custom_response payload) = handle_custom_response handlers from payload
  dispatch_message now from (request_vote msg) = handle_request_vote from msg
  dispatch_message now from (request_vote_resp msg) = handle_request_vote_response from msg
  dispatch_message now from (pre_vote msg) = handle_pre_vote now from msg
  dispatch_message now from (pre_vote_resp msg) = handle_pre_vote_response from msg
  dispatch_message now from (install_snapshot msg payload) =
      handle_install_snapshot now from msg payload
  dispatch_message now from (install_snapshot_resp msg) = handle_install_snapshot_response from msg
  dispatch_message now from (timeout_now msg) = handle_timeout_now from msg
  dispatch_message now from (append_entries_vectored msg entries) =
      fail (protocol "unexpected vectored inbound")
  dispatch_message now from (append_entries_seeded_vectored msg headers payloads) =
      fail (protocol "unexpected vectored inbound")

  unfoldable pub handle_inbound : ℕ → InboundRaftMessage → M S (Unit {0})
  unfolding dispatch_message stamp_contact
  handle_inbound now inbound n =
      dispatch_message now inbound.from inbound.message (stamp_contact now inbound n)

  unfoldable pub handle_inbound_tolerant : ℕ → InboundRaftMessage → M S (Unit {0})
  unfolding handle_inbound tolerate
  handle_inbound_tolerant now inbound n =
      let (result, m) = handle_inbound now inbound n in (tolerate result, m)

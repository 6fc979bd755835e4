-- ===== src/Node/Stays.antt =====
-- A node that campaigns keeps its configuration while it does, whatever messages it handles.
use arbitro_raft.Base.{
  ℕ, ◌≡◌, refl, ◌∙◌, Bool, true, false, not, List, ltb, arith, inl, inr, Bool-cases,
}
use arbitro_raft.Types.{SnapshotMeta, is_candidate_role}
use arbitro_raft.Storage.{RaftStorage}
use arbitro_raft.Wire.{
  RaftMessage, InboundRaftMessage, AppendEntries, InstallSnapshot, RequestVote, request_vote,
  request_vote_resp, pre_vote, pre_vote_resp, append_entries, append_entries_vectored,
  append_entries_resp, install_snapshot, install_snapshot_resp, timeout_now, TimeoutNow, custom,
  custom_response,
}
use arbitro_raft.Node.{
  RaftNode, M, current_term, when, step_down, demote_to_follower_keep_term, send_message, modify,
  set_commit_index, ◌>>◌,
}
use arbitro_raft.Node.Rules.{bind_node}
use arbitro_raft.PeerMap.{PeerMap, insert, remove}
use arbitro_raft.Base.{length, ◌++◌, ◌==◌}
use arbitro_raft.Wire.{AppendEntriesResp}
use arbitro_raft.Node.{PendingSnapshot}
use arbitro_raft.Node.Keeps.{apply_append_entries-Keeps, prev_matches-node}
use arbitro_raft.Node.Append.{
  handle_append_entries, handle_append_entries_response, reject_entries, check_entries,
  accept_entries, follow, commit_up_to,
}
use arbitro_raft.Node.Election.{
  handle_request_vote, record_vote, can_vote, handle_request_vote_response, handle_pre_vote,
  handle_pre_vote_response,
}
use arbitro_raft.Node.Snapshot.{
  handle_install_snapshot, handle_install_snapshot_response, receive_chunk, take_chunk,
  accept_chunk, install_completed, discard_log, seat_boundary, raise_commit, snapshot_reply,
  recognize, with_transfers, count_dropped_frame, evict_stalled_snapshots,
}
use arbitro_raft.Node.Transfer.{handle_timeout_now, arm_campaign}
use arbitro_raft.Node.Custom.{CustomHandlers, handle_custom_message, handle_custom_response}
use arbitro_raft.Wire.{append_entries_seeded, append_entries_seeded_vectored}
use arbitro_raft.Node.Seeded.{check_seeded, handle_append_entries_seeded}
use arbitro_raft.Node.SeededSteps.{check_seeded-follows}
use arbitro_raft.Node.Inbound.{handle_inbound, dispatch_message, stamp_contact}

-- The node that still campaigns in `m` campaigned in `n`, under the same configuration.
pub record Stays {S : Type 0} (n m : RaftNode S) : Type 0 where
  pub campaigned :
      is_candidate_role m.soft_state.role ≡ true → is_candidate_role n.soft_state.role ≡ true
  pub config : is_candidate_role m.soft_state.role ≡ true → m.config ≡ n.config
  pub joint_peers : is_candidate_role m.soft_state.role ≡ true → m.joint_peers ≡ n.joint_peers

pub Stays-refl : {S : Type 0} (n : RaftNode S) → Stays n n
Stays-refl n = ground arith

pub Stays-trans : {S : Type 0} {n m k : RaftNode S} → Stays n m → Stays m k → Stays n k
Stays-trans a b = record {
  campaigned = λ e. a.campaigned (b.campaigned e);
  config = λ e. b.config e ∙ a.config (b.campaigned e);
  joint_peers = λ e. b.joint_peers e ∙ a.joint_peers (b.campaigned e);
}

module _ {S : Type 0} where
  stamp_contact-Stays :
      (now : ℕ) (inbound : InboundRaftMessage) (n : RaftNode S)
      → Stays n (stamp_contact now inbound n)
  unfolding stamp_contact
  stamp_contact-Stays now inbound n = ground arith

  arm_campaign-Stays : (from : ℕ) (n : RaftNode S) → Stays n (arm_campaign from n)
  unfolding arm_campaign
  arm_campaign-Stays from n = ground arith

  handle_custom_message-Stays :
      (handlers : CustomHandlers) (from : ℕ) (payload : List ℕ) (n : RaftNode S)
      → Stays n (handle_custom_message handlers from payload n).1
  unfolding handle_custom_message
  handle_custom_message-Stays handlers from payload n = ground arith

  handle_custom_response-Stays :
      (handlers : CustomHandlers) (from : ℕ) (payload : List ℕ) (n : RaftNode S)
      → Stays n (handle_custom_response handlers from payload n).1
  unfolding handle_custom_response
  handle_custom_response-Stays handlers from payload n = ground arith

module _ {S : Type 0} ⦃st : RaftStorage S⦄ where
  pub raise_term-Stays :
      (t : ℕ) (n : RaftNode S) → Stays n (when (ltb (current_term n) t) (step_down t) n).1
  unfolding step_down demote_to_follower_keep_term
  raise_term-Stays t n = ground arith

  handle_timeout_now-Stays :
      (from : ℕ) (msg : TimeoutNow) (n : RaftNode S) → Stays n (handle_timeout_now from msg n).1
  unfolding handle_timeout_now
  handle_timeout_now-Stays from msg n = elim (Bool-cases (ltb msg.term (current_term n))) [
    | inl old ↦ rw (old, handle_timeout_now) (Stays-refl n)
    | inr new ↦
        let up = raise_term-Stays msg.term n in
        rw (new, handle_timeout_now)
          (bind_node (Stays n) (when (ltb (current_term n) msg.term) (step_down msg.term))
            (λ _. modify (arm_campaign from)) n up
            λ _ _. Stays-trans up (arm_campaign-Stays from _))
  ]

  handle_request_vote-Stays :
      (from : ℕ) (msg : RequestVote) (n : RaftNode S) → Stays n (handle_request_vote from msg n).1
  unfolding handle_request_vote send_message can_vote record_vote step_down
      demote_to_follower_keep_term
  handle_request_vote-Stays from msg n = ground arith

  -- Behind the recognition of a leader the node does not campaign.
  check_entries-follows :
      (from : ℕ) (msg : AppendEntries) (payload : List ℕ) (leader now : ℕ) (n : RaftNode S)
      → is_candidate_role (check_entries from msg payload (follow leader now n)).1.soft_state.role
        ≡ false
  unfolding check_entries accept_entries reject_entries commit_up_to set_commit_index send_message
      follow
  check_entries-follows from msg payload leader now n = ground (
    arith,
    prev_matches-node msg.prev_log_index msg.prev_log_term (follow leader now n),
    apply_append_entries-Keeps msg payload (follow leader now n) refl,
  )

  reject_entries-Stays :
      (from : ℕ) (msg : AppendEntries) (hint : ℕ) (n : RaftNode S)
      → Stays n (reject_entries from msg hint n).1
  unfolding reject_entries send_message
  reject_entries-Stays from msg hint n = ground arith

  no_candidate-Stays : (n m : RaftNode S) → is_candidate_role m.soft_state.role ≡ false → Stays n m
  no_candidate-Stays n m e = ground (arith, e)

  handle_append_entries-Stays :
      (now from : ℕ) (msg : AppendEntries) (payload : List ℕ) (n : RaftNode S)
      → Stays n (handle_append_entries now from msg payload n).1
  unfolding handle_append_entries
  handle_append_entries-Stays now from msg payload n =
      elim (Bool-cases (ltb msg.term (current_term n))) [
        | inl old ↦
            rw (old, handle_append_entries) (reject_entries-Stays from msg n.cached_last_log.0 n)
        | inr new ↦
            let raise : M S (Unit {0}) =
              when (ltb (current_term n) msg.term) (step_down msg.term) in
            rw (new, handle_append_entries)
              (bind_node (Stays n) raise
                (λ _ m. check_entries from msg payload (follow msg.leader_id now m)) n
                (raise_term-Stays msg.term n)
                λ _ _.
                  no_candidate-Stays n _
                    (check_entries-follows from msg payload msg.leader_id now (raise n).1))
      ]

  handle_append_entries_seeded-Stays :
      (now from : ℕ) (msg : AppendEntries) (headers payloads : List ℕ) (n : RaftNode S)
      → Stays n (handle_append_entries_seeded now from msg headers payloads n).1
  unfolding handle_append_entries_seeded
  handle_append_entries_seeded-Stays now from msg headers payloads n =
      elim (Bool-cases (ltb msg.term (current_term n))) [
        | inl old ↦
            rw (old, handle_append_entries_seeded)
              (reject_entries-Stays from msg n.cached_last_log.0 n)
        | inr new ↦
            let raise : M S (Unit {0}) =
              when (ltb (current_term n) msg.term) (step_down msg.term) in
            rw (new, handle_append_entries_seeded)
              (bind_node (Stays n) raise
                (λ _ m. check_seeded from msg headers payloads (follow msg.leader_id now m)) n
                (raise_term-Stays msg.term n)
                λ _ _.
                  no_candidate-Stays n _
                    (check_seeded-follows from msg headers payloads msg.leader_id now (raise n).1))
      ]

  handle_append_entries_response-Stays :
      (from : ℕ) (resp : AppendEntriesResp) (n : RaftNode S)
      → Stays n (handle_append_entries_response from resp n).1
  unfolding handle_append_entries_response step_down demote_to_follower_keep_term
  handle_append_entries_response-Stays from resp n = ground arith

  install_completed-Stays :
      (meta : SnapshotMeta) (bytes : List ℕ) (n : RaftNode S)
      → Stays n (install_completed meta bytes n).1
  unfolding install_completed raise_commit set_commit_index discard_log seat_boundary
  install_completed-Stays meta bytes n = ground arith

  snapshot_reply-Stays :
      (from accepted next : ℕ) (n : RaftNode S) → Stays n (snapshot_reply from accepted next n).1
  unfolding snapshot_reply send_message
  snapshot_reply-Stays from accepted next n = ground arith

  with_transfers-Stays :
      (t : PeerMap PendingSnapshot) (n : RaftNode S) → Stays n (with_transfers t n)
  with_transfers-Stays t n = ground arith

  finish_chunk-Stays :
      (b : Bool) (from : ℕ) (meta : SnapshotMeta) (bytes : List ℕ) (n : RaftNode S)
      → Stays n
          (when b
            (do
              modify λ m. with_transfers (remove m.pending_snapshots from) m
              install_completed meta bytes)
            n).1
  finish_chunk-Stays true from meta bytes n =
      let t = remove n.pending_snapshots from in
      Stays-trans (with_transfers-Stays t n)
        (install_completed-Stays meta bytes (with_transfers t n))
  finish_chunk-Stays false from meta bytes n = Stays-refl n

  accept_chunk-Stays :
      (until from : ℕ) (msg : InstallSnapshot) (meta : SnapshotMeta) (bytes : List ℕ)
      (n : RaftNode S)
      → Stays n (accept_chunk until from msg meta bytes n).1
  unfolding accept_chunk
  accept_chunk-Stays until from msg meta bytes n =
      let s : PendingSnapshot = record { meta = meta; bytes = bytes; deadline = until } in
      let n' = with_transfers (insert n.pending_snapshots from s) n in
      let f = finish_chunk-Stays (not (msg.is_done == 0)) from meta bytes n' in
      Stays-trans (with_transfers-Stays (insert n.pending_snapshots from s) n) (
        bind_node (Stays n')
          (when (not (msg.is_done == 0)) (do
            modify λ m. with_transfers (remove m.pending_snapshots from) m
            install_completed meta bytes))
          (λ _. snapshot_reply from 1 (length bytes)) n' f
          (λ _ _. Stays-trans f (snapshot_reply-Stays from 1 (length bytes) _)))

  take_chunk-Stays :
      (until from : ℕ) (msg : InstallSnapshot) (payload : List ℕ) (p : PendingSnapshot)
      (n : RaftNode S)
      → Stays n (take_chunk until from msg payload p n).1
  unfolding take_chunk
  take_chunk-Stays until from msg payload p n = ground (
    arith,
    snapshot_reply-Stays from 0 (length p.bytes) n,
    snapshot_reply-Stays from 0 0 (with_transfers (remove n.pending_snapshots from) n),
    accept_chunk-Stays until from msg p.meta (p.bytes ++ payload) n,
  )

  recognize-Stays :
      (leader_id : ℕ) (t : PeerMap PendingSnapshot) (n : RaftNode S)
      → Stays n (with_transfers t (recognize leader_id n))
  unfolding recognize
  recognize-Stays leader_id t n = ground arith

  receive_chunk-Stays :
      (now from : ℕ) (msg : InstallSnapshot) (payload : List ℕ) (n : RaftNode S)
      → Stays n (receive_chunk now from msg payload n).1
  unfolding receive_chunk
  receive_chunk-Stays now from msg payload n = elim (Bool-cases (ltb msg.term (current_term n))) [
    | inl old ↦ rw (receive_chunk, old) (snapshot_reply-Stays from 0 0 n)
    | inr new ↦
        let up = when (ltb (current_term n) msg.term) (step_down msg.term) in
        let r = raise_term-Stays msg.term n in
        rw (receive_chunk, new)
          (bind_node (Stays n) up _ n r (λ _ _. Stays-trans r (
            Stays-trans (recognize-Stays msg.leader_id _ _)
              (take_chunk-Stays _ from msg payload _ _))))
  ]

  handle_install_snapshot-Stays :
      (now from : ℕ) (msg : InstallSnapshot) (payload : List ℕ) (n : RaftNode S)
      → Stays n (handle_install_snapshot now from msg payload n).1
  unfolding handle_install_snapshot count_dropped_frame evict_stalled_snapshots
  handle_install_snapshot-Stays now from msg payload n =
      ground (arith, receive_chunk-Stays now from msg payload (evict_stalled_snapshots now n))

  dispatch_message-Stays :
      (handlers : CustomHandlers) (now from : ℕ) (msg : RaftMessage) (n : RaftNode S)
      → Stays n (dispatch_message handlers now from msg n).1
  unfolding dispatch_message handle_request_vote_response handle_pre_vote handle_pre_vote_response
      handle_install_snapshot_response send_message
  dispatch_message-Stays handlers now from (append_entries msg payload) n =
      handle_append_entries-Stays now from msg payload n
  dispatch_message-Stays handlers now from (append_entries_seeded msg headers payloads) n =
      handle_append_entries_seeded-Stays now from msg headers payloads n
  dispatch_message-Stays handlers now from (append_entries_seeded_vectored msg headers payloads) n =
      Stays-refl n
  dispatch_message-Stays handlers now from (append_entries_resp msg) n =
      handle_append_entries_response-Stays from msg n
  dispatch_message-Stays handlers now from (custom payload) n =
      handle_custom_message-Stays handlers from payload n
  dispatch_message-Stays handlers now from (custom_response payload) n =
      handle_custom_response-Stays handlers from payload n
  dispatch_message-Stays handlers now from (request_vote msg) n =
      handle_request_vote-Stays from msg n
  dispatch_message-Stays handlers now from (request_vote_resp msg) n = raise_term-Stays msg.term n
  dispatch_message-Stays handlers now from (pre_vote msg) n = ground arith
  dispatch_message-Stays handlers now from (pre_vote_resp msg) n = raise_term-Stays msg.term n
  dispatch_message-Stays handlers now from (install_snapshot msg payload) n =
      handle_install_snapshot-Stays now from msg payload n
  dispatch_message-Stays handlers now from (install_snapshot_resp msg) n =
      raise_term-Stays msg.term n
  dispatch_message-Stays handlers now from (timeout_now msg) n = handle_timeout_now-Stays from msg n
  dispatch_message-Stays handlers now from (append_entries_vectored msg entries) n = Stays-refl n

  pub handle_inbound-Stays :
      (handlers : CustomHandlers) (now : ℕ) (inbound : InboundRaftMessage) (n : RaftNode S)
      → Stays n (handle_inbound handlers now inbound n).1
  unfolding handle_inbound
  handle_inbound-Stays handlers now inbound n = Stays-trans (stamp_contact-Stays now inbound n) (
      dispatch_message-Stays handlers now inbound.from inbound.message
        (stamp_contact now inbound n))

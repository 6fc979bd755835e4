-- ===== src/Node/Tolerance.antt =====
-- The dispatch of a frame to a node whose storage raises no fatal error.
use arbitro_raft.Base.{
  ℕ, ◌≡◌, refl, Bool, true, false, not, List, ◌++◌, ltb, ◌==◌, arith, inl, inr, Bool-cases, length,
  contains, saturating_add,
}
use arbitro_raft.Types.{SnapshotMeta}
use arbitro_raft.Error.{Result, ok, err, is_fatal, class}
use arbitro_raft.Storage.{RaftStorage}
use arbitro_raft.PeerMap.{insert, remove}
use arbitro_raft.Wire.{
  RaftMessage, InboundRaftMessage, RequestVote, InstallSnapshot, TimeoutNow, request_vote,
  request_vote_resp, pre_vote, pre_vote_resp, append_entries, append_entries_vectored,
  append_entries_resp, install_snapshot, install_snapshot_resp, timeout_now, custom,
  custom_response,
}
use arbitro_raft.Dispatch.Spec.{DispatchRoute}
use arbitro_raft.Dispatch.Response.{DispatchResponse, parse_response, check_response}
use arbitro_raft.Node.{
  RaftNode, PendingSnapshot, M, ◌>>◌, modify, when, current_term, step_down, send_message,
  on_storage, from_storage,
}
use arbitro_raft.Node.Election.{
  handle_request_vote, answer_vote, can_vote, record_vote, handle_request_vote_response,
  handle_pre_vote, handle_pre_vote_response,
}
use arbitro_raft.Node.Snapshot.{
  handle_install_snapshot, handle_install_snapshot_response, receive_chunk, take_chunk,
  accept_chunk, install_completed, discard_log, seat_boundary, snapshot_reply, with_transfers,
  evict_stalled_snapshots, boundary_conflict,
}
use arbitro_raft.Node.Transfer.{handle_timeout_now}
use arbitro_raft.Node.Custom.{
  CustomHandlers, handle_custom_message, handle_custom_response, forget_ready,
}
use arbitro_raft.Wire.{append_entries_seeded, append_entries_seeded_vectored}
use arbitro_raft.Node.SeededMild.{handle_append_entries_seeded-Mild}
use arbitro_raft.Node.Inbound.{
  handle_inbound, handle_inbound_tolerant, tolerate, dispatch_message, stamp_contact,
}
use arbitro_raft.Node.Robust.{
  Mild, IsMild, Mild-bind, Mild-when, raise_term-Mild, handle_append_entries-Mild,
  handle_append_entries_response-Mild,
}

-- The registered handlers raise no fatal error either.
pub record AreMild (handlers : CustomHandlers) : Type 0 where
  pub invokes :
      (payload : List ℕ) (route : DispatchRoute)
      → Mild (handlers.invoke_bytes_scoped payload route).0
  pub answers : (from : ℕ) (response : DispatchResponse) → Mild (handlers.answer from response)

parse_response-Mild : (frame : List ℕ) → Mild (parse_response frame)
unfolding parse_response check_response is_fatal class
parse_response-Mild frame = ground arith

forget_ready-Mild :
    {S : Type 0} (tx_id : ℕ) (ready : Bool) (n : RaftNode S) → Mild (forget_ready tx_id ready n).0
forget_ready-Mild tx_id true n = tt
forget_ready-Mild tx_id false n = tt

module _ {S : Type 0} (handlers : CustomHandlers) (are_mild : AreMild handlers) where
  handle_custom_message-Mild :
      (from : ℕ) (payload : List ℕ) (n : RaftNode S)
      → Mild (handle_custom_message handlers from payload n).0
  unfolding handle_custom_message
  handle_custom_message-Mild from payload n = are_mild.invokes payload _

  handle_custom_response-Mild :
      (from : ℕ) (payload : List ℕ) (n : RaftNode S)
      → Mild (handle_custom_response handlers from payload n).0
  unfolding handle_custom_response
  handle_custom_response-Mild from payload n =
      Mild-bind (λ n. (parse_response payload, n)) _ n (parse_response-Mild payload)
        λ r. elim (Bool-cases (contains n.pending_custom r.tx_id)) [
          | inr e ↦ rw e tt
          | inl e ↦ rw e (
              Mild-bind (λ m. (handlers.answer from r, m)) _ n (are_mild.answers from r)
                (λ ready. forget_ready-Mild r.tx_id ready _))
        ]

tolerate-Mild : (r : Result (Unit {0})) → Mild r → tolerate r ≡ ok tt
unfolding tolerate
tolerate-Mild (ok u) h = refl
tolerate-Mild (err e) h = rw h refl

module _ {S : Type 0} ⦃st : RaftStorage S⦄ (mild : IsMild st) where
  record_vote-Mild : (candidate : ℕ) (n : RaftNode S) → Mild (record_vote candidate n).0
  unfolding record_vote
  record_vote-Mild candidate n = mild.saves n.storage _

  answer_vote-Mild :
      (from : ℕ) (msg : RequestVote) (n : RaftNode S) → Mild (answer_vote from msg n).0
  unfolding answer_vote send_message
  answer_vote-Mild from msg n =
      Mild-bind (from_storage st.last_log_position) _ n (mild.reads_position n.storage) λ position.
        Mild-bind (when (can_vote msg position n) (record_vote msg.candidate_id)) _ n
          (Mild-when (can_vote msg position n) (record_vote msg.candidate_id) n
            (record_vote-Mild msg.candidate_id n))
          λ _. tt

  handle_request_vote-Mild :
      (from : ℕ) (msg : RequestVote) (n : RaftNode S) → Mild (handle_request_vote from msg n).0
  unfolding handle_request_vote
  handle_request_vote-Mild from msg n =
      Mild-bind (when (ltb (current_term n) msg.term) (step_down msg.term)) _ n
        (raise_term-Mild mild msg.term n) λ _. answer_vote-Mild from msg _

  handle_pre_vote-Mild :
      (now from : ℕ) (msg : RequestVote) (n : RaftNode S) → Mild (handle_pre_vote now from msg n).0
  unfolding handle_pre_vote send_message
  handle_pre_vote-Mild now from msg n =
      Mild-bind (from_storage st.last_log_position) _ n (mild.reads_position n.storage) (λ _. tt)

  handle_timeout_now-Mild :
      (from : ℕ) (msg : TimeoutNow) (n : RaftNode S) → Mild (handle_timeout_now from msg n).0
  unfolding handle_timeout_now
  handle_timeout_now-Mild from msg n = elim (Bool-cases (ltb msg.term (current_term n))) [
    | inl old ↦ rw (old, handle_timeout_now) tt
    | inr new ↦
        rw (new, handle_timeout_now)
          (Mild-bind (when (ltb (current_term n) msg.term) (step_down msg.term)) _ n
            (raise_term-Mild mild msg.term n) (λ _. tt))
  ]

  snapshot_reply-Mild :
      (from accepted next : ℕ) (n : RaftNode S) → Mild (snapshot_reply from accepted next n).0
  unfolding snapshot_reply send_message
  snapshot_reply-Mild from accepted next n = tt

  discard_log-Mild :
      (meta : SnapshotMeta) (b : Bool) (n : RaftNode S) → Mild (discard_log meta b n).0
  unfolding discard_log
  discard_log-Mild meta true n = mild.truncates n.storage 1
  discard_log-Mild meta false n =
      mild.truncates_before n.storage (saturating_add meta.last_included_index 1)

  install_completed-Mild :
      (meta : SnapshotMeta) (bytes : List ℕ) (n : RaftNode S)
      → Mild (install_completed meta bytes n).0
  unfolding install_completed
  install_completed-Mild meta bytes n =
      Mild-bind (on_storage λ s. st.save_snapshot s meta bytes) _ n
        (mild.saves_snapshot n.storage meta bytes)
        λ _.
          Mild-bind (from_storage λ s. st.term_at s meta.last_included_index) _ _
            (mild.reads_term _ meta.last_included_index)
            λ local.
              let b = boundary_conflict local meta.last_included_term in
              Mild-bind (discard_log meta b) (λ _. modify (seat_boundary meta)) _
                (discard_log-Mild meta b _) (λ _. tt)

  accept_chunk-Mild :
      (until from : ℕ) (msg : InstallSnapshot) (meta : SnapshotMeta) (bytes : List ℕ)
      (n : RaftNode S)
      → Mild (accept_chunk until from msg meta bytes n).0
  unfolding accept_chunk
  accept_chunk-Mild until from msg meta bytes n =
      let s : PendingSnapshot = record { meta = meta; bytes = bytes; deadline = until } in
      let n' = with_transfers (insert n.pending_snapshots from s) n in
      let finish : M S (Unit {0}) =
        modify (λ m. with_transfers (remove m.pending_snapshots from) m)
        >> install_completed meta bytes in
      Mild-bind (when (not (msg.is_done == 0)) finish) (λ _. snapshot_reply from 1 (length bytes))
        n' (Mild-when (not (msg.is_done == 0)) finish n' (install_completed-Mild meta bytes _))
        (λ _. snapshot_reply-Mild from 1 (length bytes) _)

  take_chunk-Mild :
      (until from : ℕ) (msg : InstallSnapshot) (payload : List ℕ) (p : PendingSnapshot)
      (n : RaftNode S)
      → Mild (take_chunk until from msg payload p n).0
  unfolding take_chunk is_fatal class
  take_chunk-Mild until from msg payload p n =
      let a = snapshot_reply-Mild from 0 (length p.bytes) n in
      let b = accept_chunk-Mild until from msg p.meta (p.bytes ++ payload) n in
      let c = snapshot_reply-Mild from 0 0 (with_transfers (remove n.pending_snapshots from) n) in
      ground (arith, a, b, c)

  receive_chunk-Mild :
      (now from : ℕ) (msg : InstallSnapshot) (payload : List ℕ) (n : RaftNode S)
      → Mild (receive_chunk now from msg payload n).0
  unfolding receive_chunk
  receive_chunk-Mild now from msg payload n = elim (Bool-cases (ltb msg.term (current_term n))) [
    | inl old ↦ rw (receive_chunk, old) (snapshot_reply-Mild from 0 0 n)
    | inr new ↦
        rw (receive_chunk, new)
          (Mild-bind (when (ltb (current_term n) msg.term) (step_down msg.term)) _ n
            (raise_term-Mild mild msg.term n) λ _. take_chunk-Mild _ from msg payload _ _)
  ]

  handle_install_snapshot-Mild :
      (now from : ℕ) (msg : InstallSnapshot) (payload : List ℕ) (n : RaftNode S)
      → Mild (handle_install_snapshot now from msg payload n).0
  unfolding handle_install_snapshot is_fatal class
  handle_install_snapshot-Mild now from msg payload n =
      ground (arith, receive_chunk-Mild now from msg payload (evict_stalled_snapshots now n))

  module _ (handlers : CustomHandlers) (are_mild : AreMild handlers) where
    dispatch_message-Mild :
        (now from : ℕ) (msg : RaftMessage) (n : RaftNode S)
        → Mild (dispatch_message handlers now from msg n).0
    unfolding dispatch_message handle_request_vote_response handle_pre_vote_response
        handle_install_snapshot_response is_fatal class
    dispatch_message-Mild now from (append_entries msg payload) n =
        handle_append_entries-Mild mild now from msg payload n
    dispatch_message-Mild now from (append_entries_seeded msg headers payloads) n =
        handle_append_entries_seeded-Mild mild now from msg headers payloads n
    dispatch_message-Mild now from (append_entries_seeded_vectored msg headers payloads) n = refl
    dispatch_message-Mild now from (append_entries_resp msg) n =
        handle_append_entries_response-Mild mild from msg n
    dispatch_message-Mild now from (custom payload) n =
        handle_custom_message-Mild handlers are_mild from payload n
    dispatch_message-Mild now from (custom_response payload) n =
        handle_custom_response-Mild handlers are_mild from payload n
    dispatch_message-Mild now from (request_vote msg) n = handle_request_vote-Mild from msg n
    dispatch_message-Mild now from (request_vote_resp msg) n = raise_term-Mild mild msg.term n
    dispatch_message-Mild now from (pre_vote msg) n = handle_pre_vote-Mild now from msg n
    dispatch_message-Mild now from (pre_vote_resp msg) n = raise_term-Mild mild msg.term n
    dispatch_message-Mild now from (install_snapshot msg payload) n =
        handle_install_snapshot-Mild now from msg payload n
    dispatch_message-Mild now from (install_snapshot_resp msg) n = raise_term-Mild mild msg.term n
    dispatch_message-Mild now from (timeout_now msg) n = handle_timeout_now-Mild from msg n
    dispatch_message-Mild now from (append_entries_vectored msg entries) n = refl

    -- Where neither the storage nor the registered handlers raise a fatal error, the tolerant
    -- dispatch of any frame, from whatever sender, succeeds.
    pub handle_inbound_tolerant-succeeds :
        (now : ℕ) (inbound : InboundRaftMessage) (n : RaftNode S)
        → (handle_inbound_tolerant handlers now inbound n).0 ≡ ok tt
    unfolding handle_inbound_tolerant handle_inbound
    handle_inbound_tolerant-succeeds now inbound n =
        tolerate-Mild _
          (dispatch_message-Mild now inbound.from inbound.message (stamp_contact now inbound n))

-- ===== src/Node/Transfer.antt =====
-- src/api/node/transfer.rs: the freeze of proposals while a handoff is in flight, and the target's
-- side of a handoff. `now` is the instant of the call.
use arbitro_raft.Base.{
  ℕ, Bool, true, false, not, ◌&&◌, ◌||◌, Option, none, some, ltb, ◌==◌, if◌then◌else◌,
}
use arbitro_raft.Error.{not_leader, ok, err}
use arbitro_raft.Storage.{RaftStorage}
use arbitro_raft.Wire.{TimeoutNow}
use arbitro_raft.Node.{
  RaftNode, PendingTransfer, M, when, modify, ◌>>◌, is_leader, current_term, is_voter, step_down,
}

abbrev pub transfer_target : Option PendingTransfer → Option ℕ
transfer_target none = none
transfer_target (some t) = some t.target

-- `leader_id` against the sender: a sanction at an equal term is the leader's.
abbrev pub may_sanction : Option ℕ → ℕ → Bool
may_sanction none from = true
may_sanction (some leader) from = leader == from

module _ {S : Type 0} where
  -- A window that has expired is cleared by the query.
  unfoldable pub leadership_transfer_in_progress : ℕ → RaftNode S → Bool × RaftNode S
  leadership_transfer_in_progress now n = elim n.pending_transfer [
    | none ↦ (false, n)
    | some t ↦
        if ltb now t.deadline then (true, n) else (false, record n { pending_transfer = none })
  ]

  unfoldable pub check_transfer_freeze : ℕ → M S (Unit {0})
  unfolding leadership_transfer_in_progress
  check_transfer_freeze now n =
      let (frozen, m) = leadership_transfer_in_progress now n in
      if frozen then (err (not_leader (transfer_target m.pending_transfer)), m) else (ok tt, m)

  -- The armed sanction, tested against the term, the role and the voters.
  abbrev sanction_valid : Option ℕ → RaftNode S → Bool
  sanction_valid none n = false
  sanction_valid (some t) n =
      (t == current_term n) && (not (is_leader n) && is_voter n n.config.node_id)

  unfoldable pub take_forced_campaign : RaftNode S → Bool × RaftNode S
  take_forced_campaign n =
      (sanction_valid n.forced_campaign_term n, record n { forced_campaign_term = none })

  -- The tests behind the adoption of a higher term, and the arming of the campaign.
  unfoldable pub arm_campaign : ℕ → RaftNode S → RaftNode S
  arm_campaign from n =
      if is_leader n || not (is_voter n n.config.node_id)
      then n
      else if may_sanction n.soft_state.leader_id from
      then record n { forced_campaign_term = some (current_term n) }
      else n

module _ {S : Type 0} ⦃st : RaftStorage S⦄ where
  -- After the term was adopted it is that of the message, so the test of an equal term always holds.
  unfoldable pub handle_timeout_now : ℕ → TimeoutNow → M S (Unit {0})
  unfolding arm_campaign step_down
  handle_timeout_now from msg n =
      if ltb msg.term (current_term n)
      then (ok tt, n)
      else (do
        when (ltb (current_term n) msg.term) (step_down msg.term)
        modify (arm_campaign from))
          n

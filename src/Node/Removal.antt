-- ===== src/Node/Removal.antt =====
-- A leader that a final control entry removes: `apply_config_change` of
-- src/api/node/membership.rs and the vote it leaves.
use arbitro_raft.Base.{ℕ, ◌≡◌, refl, true, false, List, ◌∷◌, none, arith, contains}
use arbitro_raft.Error.{ok}
use arbitro_raft.Storage.{RaftStorage}
use arbitro_raft.Membership.{ConfigChangeEntry, final}
use arbitro_raft.Wire.{RequestVote}
use arbitro_raft.Node.{RaftNode, is_leader, current_term, step_down, demote_to_follower_keep_term}
use arbitro_raft.Node.Membership.{
  adopt, apply_config_change, count_config_change, reconcile_leader_progress_with_config,
  with_voters,
}
use arbitro_raft.Node.Election.{can_vote, candidate_up_to_date}

-- The entry that replaces the voters by `p ∷ ps`.
abbrev pub final_entry : List ℕ → ℕ → List ℕ → ConfigChangeEntry
final_entry olds p ps = record { phase = final; old_peers = olds; new_peers = p ∷ ps }

module _ {S : Type 0} ⦃st : RaftStorage S⦄ where
  -- The node at the last test, where its progress has been reconciled.
  abbrev settled : List ℕ → RaftNode S → RaftNode S
  settled peers n =
      reconcile_leader_progress_with_config (with_voters peers none (count_config_change n))

  settled-keeps :
      (peers : List ℕ) (n : RaftNode S)
      → ((settled peers n).hard_state ≡ n.hard_state)
        × ((settled peers n).soft_state ≡ n.soft_state)
        × ((settled peers n).config.node_id ≡ n.config.node_id)
        × ((settled peers n).config.peers ≡ peers)
        × ((settled peers n).storage ≡ n.storage)
  unfolding reconcile_leader_progress_with_config count_config_change
  settled-keeps peers n = (refl, refl, refl, refl, refl)

  apply-final :
      (olds : List ℕ) (p : ℕ) (ps : List ℕ) (n : RaftNode S)
      → is_leader n ≡ true
      → contains (p ∷ ps) n.config.node_id ≡ false
      → apply_config_change (final_entry olds p ps) n
        ≡ step_down (current_term n) (settled (p ∷ ps) n)
  unfolding apply_config_change adopt count_config_change
  apply-final olds p ps n lead out =
      let (h, s, i, v, _) = settled-keeps (p ∷ ps) n in rw lead (rw (h, s, i, v, lead, out) refl)

  stepped :
      (t : ℕ) (n : RaftNode S)
      → (st.save_hard_state n.storage (record { current_term = t; voted_for = none })).0 ≡ ok tt
      → (is_leader (step_down t n).1 ≡ false)
        × ((step_down t n).1.hard_state ≡ record { current_term = t; voted_for = none })
  unfolding step_down demote_to_follower_keep_term
  stepped t n e = ground (arith, e)

  -- What the removal makes of `n`: a follower of the same term without a vote, that would vote for
  -- any candidate of the term whose log is up to date.
  abbrev pub Deposed : RaftNode S → RaftNode S → Type 0
  Deposed n m =
      (is_leader m ≡ false)
      × (m.hard_state ≡ record { current_term = current_term n; voted_for = none })
      × ((msg : RequestVote) (position : ℕ × ℕ)
          → msg.term ≡ current_term n
          → candidate_up_to_date (msg.last_log_index, msg.last_log_term) position ≡ true
          → can_vote msg position m ≡ true)

  -- A leader that a final entry removes, and whose save succeeds, follows afterwards, with its term
  -- kept and its vote of that term forgotten: it would vote for any candidate of the term whose
  -- log is up to date.
  pub apply_config_change-removed_leader :
      (olds : List ℕ) (p : ℕ) (ps : List ℕ) (n : RaftNode S)
      → is_leader n ≡ true
      → contains (p ∷ ps) n.config.node_id ≡ false
      → (st.save_hard_state n.storage
          (record { current_term = current_term n; voted_for = none })).0
        ≡ ok tt
      → Deposed n (apply_config_change (final_entry olds p ps) n).1
  unfolding can_vote
  apply_config_change-removed_leader olds p ps n lead out saves =
      let r = settled (p ∷ ps) n in
      let (_, _, _, _, same) = settled-keeps (p ∷ ps) n in
      let (follows, forgot) = stepped (current_term n) r (rw same saves) in
      rw (apply-final olds p ps n lead out)
        (follows, forgot, λ msg position t up. ground (arith, forgot, t, up))

-- ===== src/Node/Lease.antt =====
-- The quorum lease: what an active lease rests on, and what it means for a candidate.
use arbitro_raft.Base.{
  ℕ, ◌≡◌, refl, ◌-◌, ◌<◌, max, true, false, List, [], ◌∷◌, some, ◌==◌, arith, inl, inr, ◌⊎◌,
  Bool-cases, Option-cases, subst, contains, distinct,
}
use arbitro_raft.PeerMap.{get}
use arbitro_raft.Quorum.{voter_majority}
use arbitro_raft.Quorum.Overlap.{voter_majority_overlap, IsSubset}
use arbitro_raft.Node.{RaftNode, is_voter}
use arbitro_raft.Node.Inbound.{is_recent, recent_peers, check_quorum_active, election_timeout}

module _ {S : Type 0} (now : ℕ) (n : RaftNode S) where
  -- A peer in the list of the recent ones.
  recent_peers-member :
      (ps : List ℕ) (x : ℕ)
      → contains (recent_peers now n ps) x ≡ true
      → (contains ps x ≡ true) × (is_recent now n x ≡ true) × ((x == n.config.node_id) ≡ false)
  unfolding recent_peers
  recent_peers-member [] x h = ground (arith, h)
  recent_peers-member (p ∷ ps) x h = ground (arith, h, recent_peers-member ps x)

  recent_peers-distinct :
      (ps : List ℕ) → distinct ps ≡ true → distinct (recent_peers now n ps) ≡ true
  unfolding recent_peers
  recent_peers-distinct [] d = refl
  recent_peers-distinct (p ∷ ps) d =
      ground (arith, d, recent_peers-member ps p, recent_peers-distinct ps)

  contact_of :
      (x : ℕ)
      → is_recent now n x ≡ true
      → (t : ℕ) × (get n.last_voter_contact x ≡ some t)
        × (now - t < max n.config.timing.election_max_ms 1)
  unfolding is_recent election_timeout
  contact_of x h = elim (Option-cases (get n.last_voter_contact x)) [
    | inl e ↦ ground (arith, h, e)
    | inr (t, e) ↦ (t, e, ground (arith, h, e))
  ]

  -- While the lease of a voter is active, a majority of the same configuration, each voter once,
  -- that elects anyone has a voter that is the node itself, or from which the node has a contact
  -- younger than its election timeout.
  pub check_quorum_active-shares_voter :
      (granted : List ℕ)
      → check_quorum_active now n ≡ true
      → is_voter n n.config.node_id ≡ true
      → distinct n.config.peers ≡ true
      → distinct granted ≡ true
      → IsSubset granted n.config.peers
      → voter_majority n.joint_peers n.config.peers granted ≡ true
      → (x : ℕ) × (contains granted x ≡ true)
        × ((x ≡ n.config.node_id)
            ⊎ ((t : ℕ) × (get n.last_voter_contact x ≡ some t)
                × (now - t < max n.config.timing.election_max_ms 1)))
  unfolding check_quorum_active
  check_quorum_active-shares_voter granted a v d dg s m =
      let lease_members : IsSubset (n.config.node_id ∷ recent_peers now n n.config.peers)
          n.config.peers =
        λ x h. elim (Bool-cases (n.config.node_id == x)) [
          | inl same ↦ subst (λ y. contains n.config.peers y ≡ true) (ground (arith, same)) v
          | inr other ↦ (recent_peers-member n.config.peers x (ground (arith, h, other))).0
        ] in
      let (x, lease, grant) =
        voter_majority_overlap n.joint_peers n.config.peers
          (n.config.node_id ∷ recent_peers now n n.config.peers) granted
          (ground (
            arith,
            recent_peers-member n.config.peers n.config.node_id,
            recent_peers-distinct n.config.peers d,
          ))
          dg lease_members s a m in
      (
        x,
        grant,
        elim (Bool-cases (n.config.node_id == x)) [
          | inl same ↦ inl (ground (arith, same))
          | inr other ↦
              let (_, recent, _) =
                recent_peers-member n.config.peers x (ground (arith, lease, other)) in
              inr (contact_of x recent)
        ],
      )

-- ===== src/Dispatch/Policy.antt =====
-- The policies of a dispatch: what they require can be reached, and the transaction decides.
use arbitro_raft.Base.{
  ℕ, ◌+◌, ◌*◌, ◌/◌, ◌≤◌, ◌<◌, ◌≡◌, ◌≢◌, refl, min, max, List, [], ◌∷◌, none, some, ◌==◌, arith,
  count_if, inl, inr, Bool-cases,
}
use native.Mathlib.Nat.{mul-le-mul_left}
use arbitro_raft.Dispatch.{
  DispatchAckOptions, DispatchAckPolicy, all, quorum, at_least, by_percent, best_effort,
  DispatchPeerSlot, DispatchState, is_accepted, is_failed, is_pending, is_active, accepted_count,
  failed_count, pending_count, active_count, required_of, required_accepts, decide_state, complete,
  succeeded, evaluate,
}

percent-le : (n p : ℕ) → p ≤ 100 → (n * p + 99) / 100 ≤ n
percent-le n p h = omega (arith, mul-le-mul_left n h)

-- For a positive number of active peers, every policy requires at least one accept, and no more
-- than there are active peers.
pub required_of-bounds :
    (o : DispatchAckOptions) (policy : DispatchAckPolicy) (active : ℕ)
    → 0 < active
    → (0 < required_of o policy active) × (required_of o policy active ≤ active)
unfolding required_of
required_of-bounds o all active h = (h, omega arith)
required_of-bounds o quorum active h = (omega arith, omega (arith, h))
required_of-bounds o at_least active h = (omega (arith, h), omega arith)
required_of-bounds o by_percent active h =
    (omega arith, omega (arith, percent-le active (min (max o.percent 1) 100) (omega arith)))
required_of-bounds o best_effort active h = (omega arith, omega (arith, h))

module _ {R : Type 0} where
  counts :
      (ss : List (DispatchPeerSlot R))
      → count_if is_active ss
        ≡ count_if is_accepted ss + count_if is_failed ss + count_if is_pending ss
  counts [] = refl
  counts (s ∷ ss) = ground (arith, counts ss)

  -- Once no peer is pending, an evaluation leaves the transaction complete.
  pub evaluate-decides :
      (d : DispatchState R) → pending_count d ≡ 0 → (evaluate d).completion ≢ none
  unfolding evaluate decide_state complete
  evaluate-decides d h e = ground (arith, h, e)

  -- If every peer that is not disconnected has accepted, an evaluation of a running transaction
  -- succeeds, under every policy.
  pub evaluate-all_accepted :
      (d : DispatchState R)
      → d.completion ≡ none
      → failed_count d ≡ 0
      → pending_count d ≡ 0
      → (evaluate d).completion ≡ some (succeeded d.peers)
  unfolding evaluate decide_state complete required_accepts accepted_count failed_count
      pending_count active_count
  evaluate-all_accepted d n f p = elim (Bool-cases (count_if is_active d.peers == 0)) [
    | inl z ↦ ground (arith, n, z)
    | inr z ↦
        let b = required_of-bounds d.ack d.ack.policy (count_if is_active d.peers) (ground arith) in
        ground (arith, n, z, f, p, b, counts d.peers)
  ]

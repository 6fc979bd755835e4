-- ===== src/Dispatch.antt =====
-- src/dispatch/tx and the policies of src/dispatch/spec.rs: the transaction behind a custom
-- dispatch. The state under the lock is a record, and each entry point a function on it; `woken`
-- lists the wakers that were called. The identifier, the command and the scope, which never change,
-- are left out, and a formatted message is kept without its numbers.
pub mod Policy
pub mod Completion
pub mod Spec
pub mod Response
pub mod Codec
pub mod View
pub mod Registry
pub mod Envelope
pub mod Sealed
pub mod Registered
use Prim.Native.String.{String}
use arbitro_raft.Base.{
  ℕ, zero, suc, ◌+◌, ◌-◌, ◌*◌, ◌/◌, min, max, Bool, true, false, List, [], ◌∷◌, ◌++◌, map, Option,
  none, some, ltb, leb, ◌==◌, if◌then◌else◌, count_if, u64_max,
}
use arbitro_raft.Error.{RaftError, peer_unknown, Result, ok, err}

pub data DispatchAckPolicy : Type 0 where
  all quorum at_least by_percent best_effort : DispatchAckPolicy

pub data DispatchFailPolicy : Type 0 where
  allow_failures no_failures max_failures max_failure_percent fail_fast : DispatchFailPolicy

pub record DispatchAckOptions : Type 0 where
  pub policy : DispatchAckPolicy
  pub count : ℕ
  pub percent : ℕ

pub record DispatchFailOptions : Type 0 where
  pub policy : DispatchFailPolicy
  pub count : ℕ
  pub percent : ℕ

pub data DispatchFailure : Type 0 where
  timed_out lost_leadership : DispatchFailure
  impossible failure : String → DispatchFailure

pub data DispatchPeerState (R : Type 0) : Type 0 where
  pending : DispatchPeerState R
  progressed : List ℕ → DispatchPeerState R
  accepted : R → DispatchPeerState R
  rejected failed : List ℕ → DispatchPeerState R
  disconnected : DispatchPeerState R

pub record DispatchPeerSlot (R : Type 0) : Type 0 where
  pub peer : ℕ
  pub state : DispatchPeerState R

-- A result is the peers as they were when the transaction succeeded.
pub data DispatchCompletion (R : Type 0) : Type 0 where
  succeeded : List (DispatchPeerSlot R) → DispatchCompletion R
  gave_up : DispatchFailure → DispatchCompletion R

pub record DispatchState (R : Type 0) : Type 0 where
  pub ack : DispatchAckOptions
  pub fail : DispatchFailOptions
  pub peers : List (DispatchPeerSlot R)
  pub completion : Option (DispatchCompletion R)
  pub wakers : List ℕ
  pub woken : List ℕ
  pub start_instant : ℕ
  pub timeout : ℕ

module _ {R : Type 0} where
  abbrev pub is_accepted : DispatchPeerSlot R → Bool
  is_accepted s = elim s.state [ accepted _ ↦ true | _ ↦ false ]

  abbrev pub is_failed : DispatchPeerSlot R → Bool
  is_failed s = elim s.state [ rejected _ ↦ true | failed _ ↦ true | _ ↦ false ]

  abbrev pub is_pending : DispatchPeerSlot R → Bool
  is_pending s = elim s.state [ pending ↦ true | progressed _ ↦ true | _ ↦ false ]

  abbrev pub is_active : DispatchPeerSlot R → Bool
  is_active s = elim s.state [ disconnected ↦ false | _ ↦ true ]

  unfoldable pub accepted_count : DispatchState R → ℕ
  accepted_count d = count_if is_accepted d.peers

  unfoldable pub failed_count : DispatchState R → ℕ
  failed_count d = count_if is_failed d.peers

  unfoldable pub pending_count : DispatchState R → ℕ
  pending_count d = count_if is_pending d.peers

  unfoldable pub active_count : DispatchState R → ℕ
  active_count d = count_if is_active d.peers

-- How many of `active` peers must accept, for a positive number of them.
unfoldable pub required_of : DispatchAckOptions → DispatchAckPolicy → ℕ → ℕ
required_of o all active = active
required_of o quorum active = active / 2 + 1
required_of o at_least active = min active (max o.count 1)
required_of o by_percent active = max 1 ((active * min (max o.percent 1) 100 + 99) / 100)
required_of o best_effort active = 1

unfoldable pub allowed_of : DispatchFailOptions → DispatchFailPolicy → ℕ → ℕ
allowed_of o allow_failures active = u64_max
allowed_of o no_failures active = 0
allowed_of o fail_fast active = 0
allowed_of o max_failures active = o.count
allowed_of o max_failure_percent active = active * min o.percent 100 / 100

module _ {R : Type 0} where
  unfoldable pub required_accepts : DispatchState R → ℕ
  required_accepts d =
      let active = active_count d in
      if active == 0 then 0 else required_of d.ack d.ack.policy active

  unfoldable pub allowed_failures : DispatchState R → ℕ
  allowed_failures d = allowed_of d.fail d.fail.policy (active_count d)

  -- `self.completion = Some(...)` and `self.wake_all()`.
  unfoldable pub complete : DispatchCompletion R → DispatchState R → DispatchState R
  complete c d = record d { completion = some c; woken = d.woken ++ d.wakers; wakers = [] }

  -- The three tests of `evaluate` on a transaction that is not complete.
  unfoldable pub decide_state : DispatchState R → DispatchState R
  decide_state d =
      if required_accepts d == 0
      then complete (succeeded d.peers) d
      else if leb (required_accepts d) (accepted_count d)
      then complete (succeeded d.peers) d
      else if ltb (allowed_failures d) (failed_count d)
      then complete (gave_up (failure "dispatch failure policy exceeded")) d
      else if ltb (accepted_count d + pending_count d) (required_accepts d)
      then complete (gave_up (impossible "dispatch can no longer reach required accepts")) d
      else d

  unfoldable pub evaluate : DispatchState R → DispatchState R
  evaluate d = elim d.completion [ some _ ↦ d | none ↦ decide_state d ]

  -- The write through the first slot of the peer.
  unfoldable pub set_peer :
      ℕ
      → (DispatchPeerState R → DispatchPeerState R)
      → List (DispatchPeerSlot R)
      → Option (List (DispatchPeerSlot R))
  set_peer peer next [] = none
  set_peer peer next (s ∷ ss) =
      let rest = set_peer peer next ss in
      if s.peer == peer
      then some (record s { state = next s.state } ∷ ss)
      else (elim rest [ none ↦ none | some ss' ↦ some (s ∷ ss') ])

  unfoldable pub update_peer_state :
      ℕ
      → (DispatchPeerState R → DispatchPeerState R)
      → DispatchState R
      → Result (Unit {0}) × DispatchState R
  update_peer_state peer next d = elim d.completion [
    | some _ ↦ (ok tt, d)
    | none ↦ elim (set_peer peer next d.peers) [
      | none ↦ (err (peer_unknown peer), d)
      | some peers ↦ (ok tt, evaluate (record d { peers = peers }))
    ]
  ]

  -- What a progress report makes of a state: a decided one stays.
  unfoldable pub progress_state : List ℕ → DispatchPeerState R → DispatchPeerState R
  progress_state payload pending = progressed payload
  progress_state payload (progressed _) = progressed payload
  progress_state payload s = s

  unfoldable pub abort : DispatchFailure → DispatchState R → DispatchState R
  abort f d = elim d.completion [ some _ ↦ d | none ↦ complete (gave_up f) d ]

  unfoldable pub deadline : DispatchState R → Option ℕ
  deadline d = if d.timeout == 0 then none else some (d.start_instant + d.timeout)

  unfoldable pub check_timeout : ℕ → DispatchState R → DispatchState R
  check_timeout now d = elim d.completion [
    | some _ ↦ d
    | none ↦ elim (deadline d) [
      | none ↦ d
      | some at ↦ if leb at now then complete (gave_up timed_out) d else d
    ]
  ]

  unfoldable pub begin_transaction :
      DispatchAckOptions → DispatchFailOptions → ℕ → ℕ → List ℕ → DispatchState R
  begin_transaction ack fail timeout now targets = evaluate (record {
    ack = ack;
    fail = fail;
    peers = map (λ p. record { peer = p; state = pending }) targets;
    completion = none;
    wakers = [];
    woken = [];
    start_instant = now;
    timeout = timeout;
  })

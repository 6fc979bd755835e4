-- ===== src/Dispatch/Completion.antt =====
-- The completion of a dispatch: the first one stays, and it leaves no waiter parked.
use arbitro_raft.Base.{
  ℕ, ◌≡◌, refl, ap, ◌∙◌, List, [], ◌∷◌, ◌++◌, none, some, arith, inl, inr, Option-cases,
}
use arbitro_raft.Dispatch.{
  DispatchPeerState, DispatchState, DispatchCompletion, DispatchFailure, evaluate, decide_state,
  complete, set_peer, update_peer_state, abort, check_timeout,
}

-- The entry points of a transaction, and a waiter that parks. A waiter parks only while the
-- transaction runs, as `wait` does.
pub data DispatchCall (R : Type 0) : Type 0 where
  answers : ℕ → (DispatchPeerState R → DispatchPeerState R) → DispatchCall R
  aborts : DispatchFailure → DispatchCall R
  times_out : ℕ → DispatchCall R
  parks : ℕ → DispatchCall R

module _ {R : Type 0} where
  unfoldable pub park : ℕ → DispatchState R → DispatchState R
  park waker d = elim d.completion [
    | some _ ↦ d
    | none ↦ record d { wakers = d.wakers ++ waker ∷ [] }
  ]

  abbrev pub dispatch_step : DispatchState R → DispatchCall R → DispatchState R
  dispatch_step d (answers peer next) = (update_peer_state peer next d).1
  dispatch_step d (aborts f) = abort f d
  dispatch_step d (times_out now) = check_timeout now d
  dispatch_step d (parks waker) = park waker d

  abbrev pub dispatch_run : DispatchState R → List (DispatchCall R) → DispatchState R
  dispatch_run d [] = d
  dispatch_run d (c ∷ cs) = dispatch_run (dispatch_step d c) cs

  step-kept :
      (d : DispatchState R) (c : DispatchCall R) (x : DispatchCompletion R)
      → d.completion ≡ some x
      → dispatch_step d c ≡ d
  unfolding update_peer_state abort check_timeout park
  step-kept d (answers peer next) x e = rw e refl
  step-kept d (aborts f) x e = rw e refl
  step-kept d (times_out now) x e = rw e refl
  step-kept d (parks waker) x e = rw e refl

  -- The first completion wins: once a transaction is complete, no sequence of answers, aborts,
  -- timeouts and waiters changes it.
  pub dispatch_run-kept :
      (cs : List (DispatchCall R)) (d : DispatchState R) (x : DispatchCompletion R)
      → d.completion ≡ some x
      → dispatch_run d cs ≡ d
  dispatch_run-kept [] d x e = refl
  dispatch_run-kept (c ∷ cs) d x e =
      ap (λ d'. dispatch_run d' cs) (step-kept d c x e) ∙ dispatch_run-kept cs d x e

  -- A complete transaction has no parked waiter.
  pub record NoneParked (d : DispatchState R) : Type 0 where
    pub none_parked : (x : DispatchCompletion R) → d.completion ≡ some x → d.wakers ≡ []

  decide_state-NoneParked :
      (d : DispatchState R) → d.completion ≡ none → NoneParked (decide_state d)
  unfolding decide_state complete
  decide_state-NoneParked d n = record { none_parked = λ x e. ground (arith, n, e) }

  step-NoneParked :
      (d : DispatchState R) (c : DispatchCall R) → NoneParked d → NoneParked (dispatch_step d c)
  unfolding update_peer_state abort check_timeout park evaluate complete
  step-NoneParked d c h = elim (Option-cases d.completion) [
    | inr (x, e) ↦ rw (step-kept d c x e) h
    | inl n ↦ running c n
  ]
    where
      running : (c : DispatchCall R) → d.completion ≡ none → NoneParked (dispatch_step d c)
      running (answers peer next) n = elim (Option-cases (set_peer peer next d.peers)) [
        | inl e ↦ record { none_parked = λ x q. ground (arith, n, e, q) }
        | inr (ps, e) ↦
            let decided : (update_peer_state peer next d).1
                ≡ decide_state (record d { peers = ps }) =
              ground (arith, n, e) in
            rw decided (decide_state-NoneParked (record d { peers = ps }) n)
      ]
      running (aborts f) n = record { none_parked = λ x e. ground (arith, n, e) }
      running (times_out now) n = record { none_parked = λ x e. ground (arith, n, e) }
      running (parks waker) n = record { none_parked = λ x e. ground (arith, n, e) }

  -- From a state in which a complete transaction has no parked waiter, every sequence of answers,
  -- aborts, timeouts and waiters leads to one.
  pub dispatch_run-NoneParked :
      (cs : List (DispatchCall R)) (d : DispatchState R)
      → NoneParked d
      → NoneParked (dispatch_run d cs)
  dispatch_run-NoneParked [] d h = h
  dispatch_run-NoneParked (c ∷ cs) d h =
      dispatch_run-NoneParked cs (dispatch_step d c) (step-NoneParked d c h)

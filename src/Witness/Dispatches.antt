-- ===== src/Witness/Dispatches.antt =====
-- The theorems on dispatches, at a transaction with three peers.
use arbitro_raft.Base.{ℕ, ◌≡◌, refl, List, [], ◌∷◌, Option, some, none}
use arbitro_raft.Dispatch.{
  DispatchPeerSlot, DispatchState, DispatchCompletion, accepted, rejected, quorum, allow_failures,
  lost_leadership, timed_out, gave_up,
}
use arbitro_raft.Dispatch.Completion.{
  DispatchCall, answers, aborts, times_out, parks, dispatch_run, dispatch_run-kept, NoneParked,
  dispatch_run-NoneParked,
}

abbrev with_peers : List (DispatchPeerSlot ℕ) → Option (DispatchCompletion ℕ) → DispatchState ℕ
with_peers peers completion = record {
  ack = record { policy = quorum; count = 1; percent = 100 };
  fail = record { policy = allow_failures; count = 0; percent = 0 };
  peers = peers;
  completion = completion;
  wakers = [];
  woken = [];
  start_instant = 0;
  timeout = 2000;
}

abbrev split : DispatchState ℕ
split =
    with_peers
      (record { peer = 1; state = accepted 42 }
        ∷ record { peer = 2; state = rejected [] }
        ∷ record { peer = 3; state = rejected [] }
        ∷ [])
      none

abbrev calls : List (DispatchCall ℕ)
calls = parks 7 ∷ answers 2 (λ _. accepted 43) ∷ aborts lost_leadership ∷ times_out 3000 ∷ []

abbrev expired : DispatchState ℕ
expired = with_peers [] (some (gave_up timed_out))

dispatch_run-kept_example : dispatch_run expired calls ≡ expired
dispatch_run-kept_example = dispatch_run-kept calls expired (gave_up timed_out) refl

dispatch_run-NoneParked_example : NoneParked (dispatch_run split calls)
dispatch_run-NoneParked_example =
    dispatch_run-NoneParked calls split (record { none_parked = λ x e. refl })

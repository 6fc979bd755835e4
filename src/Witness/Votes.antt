-- ===== src/Witness/Votes.antt =====
-- The theorems on votes, at a node of the three-node configuration.
use arbitro_raft.Base.{ℕ, ◌≡◌, refl, [], some}
use arbitro_raft.Wire.{RequestVote}
use arbitro_raft.Node.Election.{handle_request_vote}
use arbitro_raft.Node.Monotone.{Monotone}
use arbitro_raft.Node.Vote.{
  here, next, on_request_vote, Reach-Monotone, one_vote_per_term, Grants-Recorded,
}
use arbitro_raft.Witness.Memory.{memory, memory-IsDurable, node}

abbrev ask : ℕ → ℕ → RequestVote
ask term candidate = record {
  term = term;
  candidate_id = candidate;
  last_log_index = 0;
  last_log_term = 0;
}

one_vote_per_term_example : ◌≡◌ {A = ℕ} 2 2
unfolding handle_request_vote
one_vote_per_term_example =
    one_vote_per_term 2 2 (ask 5 2) (ask 5 2) (node 1 [])
      (handle_request_vote 2 (ask 5 2) (node 1 [])).1 memory-IsDurable refl here refl refl

Grants-Recorded_example :
    (handle_request_vote 2 (ask 5 2) (node 1 [])).1.hard_state
    ≡ record { current_term = 5; voted_for = some 2 }
unfolding handle_request_vote
Grants-Recorded_example = (Grants-Recorded 2 (ask 5 2) (node 1 []) memory-IsDurable refl).0

Reach-Monotone_example : Monotone (node 1 []) (handle_request_vote 2 (ask 5 2) (node 1 [])).1
Reach-Monotone_example = Reach-Monotone (next here (on_request_vote 2 (ask 5 2)))

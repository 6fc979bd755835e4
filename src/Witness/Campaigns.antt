-- ===== src/Witness/Campaigns.antt =====
-- The theorems on campaigns, heartbeats, the lease and the dispatch of frames, in the three-node configuration.
use arbitro_raft.Base.{
  ◌==◌, Bool-cases, inl, inr, ℕ, ◌≡◌, refl, ◌-◌, ◌<◌, max, Bool, true, [], ◌∷◌, none, some, u64_max,
  arith, ◌⊎◌, contains, length,
}
use arbitro_raft.Error.{ok}
use arbitro_raft.PeerMap.{get, is_empty}
use arbitro_raft.Node.Heartbeat.{
  send_bare_heartbeats_except, send_bare_heartbeats, build_heartbeat_wire, append_prev_for_peer,
  wire_behind, ensure_leader_progress_initialized,
}
use arbitro_raft.Node.Commit.{term_at}
use arbitro_raft.Node.Beats.{AfterRound}
use arbitro_raft.Node.Rounds.{AreWords, send_bare_heartbeats_except-AfterRound}
use arbitro_raft.Wire.{RequestVoteResp, request_vote_resp}
use arbitro_raft.Quorum.{voter_majority}
use arbitro_raft.Node.{RaftNode}
use arbitro_raft.Node.Custom.{CustomHandlers}
use arbitro_raft.Node.Inbound.{handle_inbound_tolerant, check_quorum_active}
use arbitro_raft.Node.Campaign.{
  Frame, Drains, campaign_once, for_vote, Tally, own_vote, majority_of, count_response, take_batch,
  process_frame, no_frames,
}
use arbitro_raft.Node.Victory.{IsVictory, campaign_once-Victory, election_safety}
use arbitro_raft.Node.Ballots.{campaign_once-revotes, own_grant-counts_twice}
use arbitro_raft.Node.Robust.{IsMild}
use arbitro_raft.Node.Tolerance.{AreMild, handle_inbound_tolerant-succeeds}
use arbitro_raft.Node.Lease.{check_quorum_active-shares_voter}
use arbitro_raft.Witness.Memory.{
  memory_log, memory-IsLog, node-Coherent, Memory, memory, node, leader_node, one_entry,
}

-- No handler is registered: a custom frame is answered by no one.
abbrev no_handlers : CustomHandlers
no_handlers = record {
  invoke_bytes_scoped = λ payload route. (ok tt, []);
  answer = λ from response. ok true;
}

abbrev granted_by : ℕ → ℕ → Frame
granted_by voter term = record {
  now = 7;
  inbound = record {
    from = voter;
    group_id = 0;
    message = request_vote_resp (record { term = term; vote_granted = 1 });
  };
}

-- The second node grants at term 2.
abbrev one_grant : Drains
one_grant = ok (granted_by 2 2 ∷ []) ∷ []

abbrev reach_all : ℕ → Bool
reach_all peer = true

campaign_once_test : (campaign_once no_handlers 9 reach_all one_grant (node 1 [])).0 ≡ ok true
unfolding campaign_once voter_majority take_batch process_frame no_frames count_response
campaign_once_test = refl

campaign_once-Victory_example :
    IsVictory 1 none
      (1 ∷ 2 ∷ 3 ∷ [])
      2
      one_grant
      (campaign_once no_handlers 9 reach_all one_grant (node 1 [])).1
unfolding campaign_once voter_majority take_batch process_frame no_frames count_response
campaign_once-Victory_example =
    campaign_once-Victory no_handlers 9 reach_all one_grant (node 1 []) refl refl

abbrev vote_for_one : ℕ → ℕ
vote_for_one voter = 1

grant_of_two : (x : ℕ) → vote_for_one x ≡ 1
grant_of_two x = refl

election_safety_example : ◌≡◌ {A = ℕ} 1 1
unfolding campaign_once voter_majority take_batch process_frame no_frames count_response
election_safety_example =
    election_safety no_handlers no_handlers 9 9 reach_all reach_all one_grant one_grant (node 1 [])
      (node 1 []) vote_for_one 2 refl refl refl refl refl refl refl refl refl refl
      (λ x _. grant_of_two x) (λ x _. grant_of_two x)

-- A node at the last term that voted for the second node.
abbrev last_node : RaftNode Memory
last_node =
    let n = node 1 [] in
    record n { hard_state = record { current_term = u64_max; voted_for = some 2 } }

campaign_once-revotes_example :
    (campaign_once no_handlers 9 reach_all [] last_node).1.hard_state.voted_for ≡ some 1
unfolding campaign_once voter_majority take_batch process_frame no_frames count_response
campaign_once-revotes_example =
    campaign_once-revotes no_handlers 9 reach_all [] last_node refl refl refl

abbrev own_grant : RequestVoteResp
own_grant = record { term = 1; vote_granted = 1 }

own_grant-counts_twice_example :
    (t : Tally) × ((count_response for_vote 1 1 own_grant (own_vote (node 1 [])) (node 1 [])).0
      ≡ ok (some t))
    × (majority_of (node 1 []) t.granted ≡ true)
own_grant-counts_twice_example =
    own_grant-counts_twice own_grant (node 1 []) refl (omega arith) refl refl refl

memory-IsMild : IsMild memory
memory-IsMild = record {
  saves = λ s h. tt;
  appends = λ s es. tt;
  appends_seeded = λ s hs ps. tt;
  reads_term = λ s i. tt;
  reads_position = λ s. tt;
  truncates = λ s i. tt;
  truncates_before = λ s i. tt;
  saves_snapshot = λ s m b. tt;
}

no_handlers-AreMild : AreMild no_handlers
no_handlers-AreMild = record { invokes = λ p r. tt; answers = λ f r. tt }

handle_inbound_tolerant-succeeds_example :
    (handle_inbound_tolerant no_handlers 7 (granted_by 2 5).inbound (leader_node one_entry)).0
    ≡ ok tt
handle_inbound_tolerant-succeeds_example =
    handle_inbound_tolerant-succeeds memory-IsMild no_handlers no_handlers-AreMild 7
      (granted_by 2 5).inbound (leader_node one_entry)

-- A leader that heard the second node at instant 100.
abbrev leased : RaftNode Memory
leased = let n = leader_node one_entry in record n { last_voter_contact = (2, 100) ∷ [] }

members : (x : ℕ) → contains (2 ∷ 3 ∷ []) x ≡ true → contains (1 ∷ 2 ∷ 3 ∷ []) x ≡ true
members x h = ground (arith, h)

check_quorum_active-shares_voter_example :
    (x : ℕ) × (contains (2 ∷ 3 ∷ []) x ≡ true)
    × ((x ≡ 1) ⊎ ((t : ℕ) × (get leased.last_voter_contact x ≡ some t) × (200 - t < max 300 1)))
unfolding get check_quorum_active
check_quorum_active-shares_voter_example =
    check_quorum_active-shares_voter 200 leased (2 ∷ 3 ∷ []) refl refl refl refl members refl

abbrev first_leader : RaftNode Memory
first_leader = leader_node one_entry

first_leader-AreWords : AreWords first_leader
unfolding get
first_leader-AreWords x p e = elim (Bool-cases (2 == x)) [
  | inl two ↦ ground (arith, two, e)
  | inr other ↦ elim (Bool-cases (3 == x)) [
    | inl three ↦ ground (arith, other, three, e)
    | inr more ↦ ground (arith, other, more, e)
  ]
]

send_bare_heartbeats_except-AfterRound_example :
    AfterRound memory_log memory-IsLog true 2 first_leader
      (send_bare_heartbeats_except 9 2 first_leader)
unfolding is_empty
send_bare_heartbeats_except-AfterRound_example =
    send_bare_heartbeats_except-AfterRound memory_log memory-IsLog 9 2 first_leader refl
      first_leader-AreWords (node-Coherent 1 one_entry)

-- One frame is sent, to the third node.
send_bare_heartbeats_except_test : length (send_bare_heartbeats_except 9 2 first_leader).outbox ≡ 1
unfolding send_bare_heartbeats_except send_bare_heartbeats build_heartbeat_wire append_prev_for_peer
    term_at wire_behind ensure_leader_progress_initialized is_empty get
send_bare_heartbeats_except_test = refl

-- ===== src/Wire/Bodies.antt =====
-- The fixed bodies of src/protocol/codec/wire.rs, field by field: the width of each field and its
-- value, and the body that the values make. Padding that carries nothing is one field of value 0.
use arbitro_raft.Base.{ℕ, List, [], ◌∷◌, Option, none, some}
use arbitro_raft.Wire.{
  RequestVote, RequestVoteResp, AppendEntries, AppendEntriesResp, InstallSnapshot,
  InstallSnapshotResp, TimeoutNow,
}

-- A body type: its widths, the fields of a value, and the value of a list of field values.
pub record Layout (A : Type 0) : Type 0 where
  pub widths : List ℕ
  pub fields : A → List (ℕ × ℕ)
  pub build : List ℕ → Option A

build_vote : List ℕ → Option RequestVote
build_vote (t ∷ c ∷ i ∷ l ∷ []) =
    some (record { term = t; candidate_id = c; last_log_index = i; last_log_term = l })
build_vote _ = none

unfoldable pub vote_layout : Layout RequestVote
unfolding build_vote
vote_layout = record {
  widths = 8 ∷ 8 ∷ 8 ∷ 8 ∷ [];
  fields =
      λ m. (8, m.term) ∷ (8, m.candidate_id) ∷ (8, m.last_log_index) ∷ (8, m.last_log_term) ∷ [];
  build = build_vote;
}

build_vote_resp : List ℕ → Option RequestVoteResp
build_vote_resp (t ∷ g ∷ p ∷ []) = some (record { term = t; vote_granted = g })
build_vote_resp _ = none

unfoldable pub vote_resp_layout : Layout RequestVoteResp
unfolding build_vote_resp
vote_resp_layout = record {
  widths = 8 ∷ 1 ∷ 7 ∷ [];
  fields = λ m. (8, m.term) ∷ (1, m.vote_granted) ∷ (7, 0) ∷ [];
  build = build_vote_resp;
}

build_append : List ℕ → Option AppendEntries
build_append (t ∷ l ∷ i ∷ p ∷ c ∷ n ∷ w ∷ []) = some (record {
  term = t;
  leader_id = l;
  prev_log_index = i;
  prev_log_term = p;
  leader_commit = c;
  entry_count = n;
  pad = w;
})
build_append _ = none

unfoldable pub append_layout : Layout AppendEntries
unfolding build_append
append_layout = record {
  widths = 8 ∷ 8 ∷ 8 ∷ 8 ∷ 8 ∷ 4 ∷ 4 ∷ [];
  fields = λ m.
      (8, m.term)
      ∷ (8, m.leader_id)
      ∷ (8, m.prev_log_index)
      ∷ (8, m.prev_log_term)
      ∷ (8, m.leader_commit)
      ∷ (4, m.entry_count)
      ∷ (4, m.pad)
      ∷ [];
  build = build_append;
}

build_append_resp : List ℕ → Option AppendEntriesResp
build_append_resp (t ∷ i ∷ s ∷ p ∷ q ∷ []) =
    some (record { term = t; match_index = i; success = s; pad = p })
build_append_resp _ = none

unfoldable pub append_resp_layout : Layout AppendEntriesResp
unfolding build_append_resp
append_resp_layout = record {
  widths = 8 ∷ 8 ∷ 1 ∷ 4 ∷ 3 ∷ [];
  fields = λ m. (8, m.term) ∷ (8, m.match_index) ∷ (1, m.success) ∷ (4, m.pad) ∷ (3, 0) ∷ [];
  build = build_append_resp;
}

build_install : List ℕ → Option InstallSnapshot
build_install (t ∷ l ∷ i ∷ q ∷ o ∷ c ∷ d ∷ p ∷ []) = some (record {
  term = t;
  leader_id = l;
  last_included_index = i;
  last_included_term = q;
  offset = o;
  chunk_len = c;
  is_done = d;
})
build_install _ = none

unfoldable pub install_layout : Layout InstallSnapshot
unfolding build_install
install_layout = record {
  widths = 8 ∷ 8 ∷ 8 ∷ 8 ∷ 8 ∷ 4 ∷ 1 ∷ 3 ∷ [];
  fields = λ m.
      (8, m.term)
      ∷ (8, m.leader_id)
      ∷ (8, m.last_included_index)
      ∷ (8, m.last_included_term)
      ∷ (8, m.offset)
      ∷ (4, m.chunk_len)
      ∷ (1, m.is_done)
      ∷ (3, 0)
      ∷ [];
  build = build_install;
}

build_install_resp : List ℕ → Option InstallSnapshotResp
build_install_resp (t ∷ o ∷ a ∷ p ∷ []) = some (record { term = t; next_offset = o; accepted = a })
build_install_resp _ = none

unfoldable pub install_resp_layout : Layout InstallSnapshotResp
unfolding build_install_resp
install_resp_layout = record {
  widths = 8 ∷ 8 ∷ 1 ∷ 7 ∷ [];
  fields = λ m. (8, m.term) ∷ (8, m.next_offset) ∷ (1, m.accepted) ∷ (7, 0) ∷ [];
  build = build_install_resp;
}

build_timeout : List ℕ → Option TimeoutNow
build_timeout (t ∷ l ∷ []) = some (record { term = t; leader_id = l })
build_timeout _ = none

unfoldable pub timeout_layout : Layout TimeoutNow
unfolding build_timeout
timeout_layout = record {
  widths = 8 ∷ 8 ∷ [];
  fields = λ m. (8, m.term) ∷ (8, m.leader_id) ∷ [];
  build = build_timeout;
}

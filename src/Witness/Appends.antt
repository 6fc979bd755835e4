-- ===== src/Witness/Appends.antt =====
-- The theorems on appends, commits and progress, at nodes of the three-node configuration.
use arbitro_raft.Base.{◌<◌, ◌≡◌, refl, false, List, [], ◌∷◌, none, arith}
use arbitro_raft.Types.{LogEntry}
use arbitro_raft.Wire.{AppendEntries, AppendEntriesResp, append_entries_resp}
use arbitro_raft.Wire.Entries.{entries_bytes, entry_iter, entry_bytes, header_bytes, read_header}
use arbitro_raft.Wire.Bytes.{to_le_bytes, read_le}
use arbitro_raft.Membership.{decode}
use arbitro_raft.Node.{RaftNode, storage_truncate, set_commit_index, send_message, step_down}
use arbitro_raft.PeerMap.{PeerProgress}
use arbitro_raft.Arena
use arbitro_raft.Node.Append.{
  handle_append_entries, progress_after, prev_matches, check_entries, accept_entries,
  apply_append_entries, scan_entries, compare_entry, local_term, append_new, note_appended,
  cache_entries, latest_config, activate, commit_up_to, append_reply, follow,
}
use arbitro_raft.Node.Commit.{index_meets_commit_quorum}
use arbitro_raft.Node.Advance.{replicated, index_meets_commit_quorum-replicated}
use arbitro_raft.Node.Progress.{Progressed, progress_after-Progressed, progress_after-walks_back}
use arbitro_raft.Node.Tail.{empty_append-reply}
use arbitro_raft.Node.Success.{Batched, PrevHeld}
use arbitro_raft.Node.Accept.{handle_append_entries-Logged}
use arbitro_raft.Witness.Memory.{
  Memory, memory, memory_log, node-Coherent, memory-IsLog, node, leader_node, one_entry,
}

index_meets_commit_quorum-replicated_example :
    index_meets_commit_quorum 1 (leader_node one_entry) ≡ replicated none 1 (leader_node one_entry)
index_meets_commit_quorum-replicated_example =
    index_meets_commit_quorum-replicated 1 (leader_node one_entry)

abbrev behind : PeerProgress
behind = record { next_index = 9; match_index = 2 }

progress_after-Progressed_example : Progressed 10 false 4 behind (progress_after 10 false 4 behind)
progress_after-Progressed_example = progress_after-Progressed 10 false 4 behind

progress_after-walks_back_example : (progress_after 10 false 4 behind).next_index < 9
progress_after-walks_back_example =
    progress_after-walks_back 10 4 behind (omega arith) (omega arith) (omega arith)

abbrev accepted : AppendEntriesResp
accepted = record { term = 1; match_index = 1; success = 1; pad = 0 }

-- A heartbeat behind the first entry, and a follower whose log is two entries longer.
abbrev heartbeat : AppendEntries
heartbeat = record {
  term = 1;
  leader_id = 1;
  prev_log_index = 1;
  prev_log_term = 1;
  leader_commit = 1;
  entry_count = 0;
  pad = 0;
}

abbrev longer : List LogEntry
longer =
    record { term = 1; index = 1; payload = [] }
    ∷ record { term = 0; index = 2; payload = [] }
    ∷ record { term = 0; index = 3; payload = [] }
    ∷ []

empty_append-reply_example :
    (handle_append_entries 0 1 heartbeat [] (node 2 longer)).1.outbox
    ≡ (1, append_entries_resp (record { term = 1; match_index = 3; success = 1; pad = 0 })) ∷ []
unfolding prev_matches Arena.get_term Arena.new
empty_append-reply_example = empty_append-reply 0 1 heartbeat [] (node 2 longer) refl refl refl

-- A leader whose second and third entry are others than those of the follower.
abbrev three_entries : List LogEntry
three_entries =
    record { term = 1; index = 1; payload = [] }
    ∷ record { term = 1; index = 2; payload = [] }
    ∷ record { term = 1; index = 3; payload = [] }
    ∷ []

-- The first entry again, for a follower that holds another one in its place.
abbrev batch : AppendEntries
batch = record heartbeat { prev_log_index = 0; prev_log_term = 0; entry_count = 1 }

abbrev divergent : RaftNode Memory
divergent = node 2 (record { term = 0; index = 1; payload = [] } ∷ [])

handle_append_entries-Logged_example :
    PrevHeld memory_log memory-IsLog batch divergent
    × Batched memory_log memory-IsLog batch
        (entries_bytes one_entry)
        divergent
        (handle_append_entries 0 1 batch (entries_bytes one_entry) divergent).1
unfolding handle_append_entries check_entries prev_matches accept_entries apply_append_entries
    scan_entries compare_entry local_term append_new note_appended cache_entries latest_config
    activate commit_up_to append_reply follow storage_truncate set_commit_index send_message
    entry_iter entries_bytes entry_bytes header_bytes read_header to_le_bytes read_le decode
    Arena.append Arena.get_term Arena.truncate_suffix Arena.new Arena.push_slot Arena.reseat
    Arena.make_room Arena.clear Arena.bump_from step_down
handle_append_entries-Logged_example =
    handle_append_entries-Logged memory_log memory-IsLog 0 1 batch (entries_bytes one_entry)
      divergent (omega arith, (refl, omega arith, tt))
      (node-Coherent 2 (record { term = 0; index = 1; payload = [] } ∷ []))
      (record { term = 1; match_index = 1; success = 1; pad = 0 }, refl, refl)

-- ===== src/Node/Tail.antt =====
-- What a follower reports when it accepts an append that carries no entries, and what the leader
-- makes of it: src/api/node/replication/handler.rs.
use arbitro_raft.Base.{ℕ, ◌≡◌, true, List, [], ◌∷◌, ◌++◌, arith}
use arbitro_raft.Error.{ok}
use arbitro_raft.Storage.{RaftStorage}
use arbitro_raft.PeerMap.{PeerMap}
use arbitro_raft.Wire.{AppendEntries, AppendEntriesResp, append_entries_resp}
use arbitro_raft.Wire.Entries.{entry_iter}
use arbitro_raft.Node.{RaftNode, current_term, send_message, set_commit_index}
use arbitro_raft.Node.Append.{
  handle_append_entries, append_reply, accept_entries, apply_append_entries, scan_entries,
  append_new, check_entries, prev_matches, follow, commit_up_to,
}

-- The reply of a follower that accepts an empty append: it reports the tip of its log.
abbrev pub tip_reply : {S : Type 0} → AppendEntries → RaftNode S → AppendEntriesResp
tip_reply msg f = record {
  term = current_term f;
  match_index = f.cached_last_log.0;
  success = 1;
  pad = msg.pad;
}

module _ {S : Type 0} ⦃st : RaftStorage S⦄ where
  accept_empty :
      (from : ℕ) (msg : AppendEntries) (payload : List ℕ) (f : RaftNode S)
      → msg.entry_count ≡ 0
      → (accept_entries from msg payload f).1.outbox
        ≡ f.outbox ++ (from, append_entries_resp (tip_reply msg f)) ∷ []
  unfolding accept_entries apply_append_entries scan_entries append_new commit_up_to
      set_commit_index send_message append_reply entry_iter
  accept_empty from msg payload f e = rw e (ground arith)

  -- A follower of the message's term that has the previous entry of an append without entries
  -- replies with success and the tip of its own log, wherever that previous entry lies.
  pub empty_append-reply :
      (now from : ℕ) (msg : AppendEntries) (payload : List ℕ) (f : RaftNode S)
      → msg.term ≡ current_term f
      → msg.entry_count ≡ 0
      → (prev_matches msg.prev_log_index msg.prev_log_term f).0 ≡ ok true
      → (handle_append_entries now from msg payload f).1.outbox
        ≡ f.outbox ++ (from, append_entries_resp (tip_reply msg f)) ∷ []
  unfolding handle_append_entries check_entries follow prev_matches
  empty_append-reply now from msg payload f t e p =
      ground (arith, p, accept_empty from msg payload (follow msg.leader_id now f) e)

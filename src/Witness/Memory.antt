-- ===== src/Witness/Memory.antt =====
-- A storage in memory and a three-node configuration, for the witnesses.
use arbitro_raft.Base.{
  ℕ, ◌≡◌, refl, sym, ap, ◌∙◌, arith, Option-cases, inl, inr, true, false, List, [], ◌∷◌, ◌++◌,
  Option, none, some, ltb, ◌==◌, if◌then◌else◌, retain,
}
use arbitro_raft.Types.{HardState, SnapshotMeta, LogEntry, follower, leader}
use arbitro_raft.Error.{ok}
use arbitro_raft.Config.{NodeConfig}
use arbitro_raft.Storage.{RaftStorage}
use arbitro_raft.Wire.Entries.{EntryHeader}
use arbitro_raft.Arena
use arbitro_raft.Node.{RaftNode, RaftMetrics}
use arbitro_raft.Arena.Lookup.{new-IsValid}
use arbitro_raft.Node.Log.{IsLog, IsCoherent, overlay}
use arbitro_raft.Node.Vote.{IsDurable}

pub record Memory : Type 0 where
  pub saved : HardState
  pub entries : List LogEntry
  pub snapshot : Option (SnapshotMeta × List ℕ)

-- The last entry at an index wins.
abbrev pub find_entry : List LogEntry → ℕ → Option LogEntry
find_entry [] i = none
find_entry (e ∷ es) i = elim (find_entry es i) [
  | some f ↦ some f
  | none ↦ if e.index == i then some e else none
]

abbrev pub last_of : List LogEntry → ℕ × ℕ
last_of [] = (0, 0)
last_of (e ∷ []) = (e.index, e.term)
last_of (e ∷ f ∷ es) = last_of (f ∷ es)

abbrev pub term_of_entry : Option LogEntry → Option ℕ
term_of_entry none = none
term_of_entry (some e) = some e.term

abbrev meta_of : Option (SnapshotMeta × List ℕ) → Option SnapshotMeta
meta_of none = none
meta_of (some (m, b)) = some m

abbrev zip_entries : List EntryHeader → List (List ℕ) → List LogEntry
zip_entries [] ps = []
zip_entries (h ∷ hs) [] = []
zip_entries (h ∷ hs) (p ∷ ps) =
    record { term = h.term; index = h.index; payload = p } ∷ zip_entries hs ps

instance abbrev pub memory : RaftStorage Memory
memory = record {
  load_hard_state = λ s. ok s.saved;
  save_hard_state = λ s h. (ok tt, record s { saved = h });
  append_entries = λ s es. (ok tt, record s { entries = s.entries ++ es });
  append_entries_seeded = λ s hs ps. (ok tt, record s { entries = s.entries ++ zip_entries hs ps });
  read_entries = λ s from to. ok (retain (λ e. if ltb e.index from then false else true) s.entries);
  entry_at = λ s i. ok (find_entry s.entries i);
  term_at = λ s i. ok (term_of_entry (find_entry s.entries i));
  last_log_position = λ s. ok (last_of s.entries);
  truncate_suffix =
      λ s from. (ok tt, record s { entries = retain (λ e. ltb e.index from) s.entries });
  truncate_before = λ s up_to. (
    ok tt,
    record s { entries = retain (λ e. if ltb e.index up_to then false else true) s.entries },
  );
  save_snapshot = λ s m b. (ok tt, record s { snapshot = some (m, b) });
  load_snapshot = λ s. ok s.snapshot;
  load_snapshot_meta = λ s. ok (meta_of s.snapshot);
}

pub memory-IsDurable : IsDurable memory
memory-IsDurable s h e = refl

-- The terms of the log in memory.
abbrev pub memory_log : Memory → ℕ → Option ℕ
memory_log s i = term_of_entry (find_entry s.entries i)

find-append :
    (xs es : List LogEntry) (j : ℕ)
    → find_entry (xs ++ es) j
      ≡ (elim (find_entry es j) [ some f ↦ some f | none ↦ find_entry xs j ])
find-append [] es j = elim (Option-cases (find_entry es j)) [ inl e ↦ rw e | inr (f, e) ↦ rw e ]
find-append (x ∷ xs) es j = ground (arith, find-append xs es j)

overlay-find :
    (es : List LogEntry) (l : ℕ → Option ℕ) (j : ℕ)
    → overlay es l j ≡ (elim (find_entry es j) [ some f ↦ some f.term | none ↦ l j ])
overlay-find [] l j = refl
overlay-find (e ∷ es) l j =
    overlay-find es (λ i. if i == e.index then some e.term else l i) j ∙ ground arith

find-retain :
    (xs : List LogEntry) (from j : ℕ)
    → find_entry (retain (λ e. ltb e.index from) xs) j
      ≡ (if ltb j from then find_entry xs j else none)
find-retain [] from j = ground arith
find-retain (x ∷ xs) from j = ground (arith, find-retain xs from j)

pub memory-IsLog : IsLog memory memory_log
memory-IsLog = record {
  term_at_log = λ s i o e. ground (arith, e);
  append_log = λ s es j _.
      ap term_of_entry (find-append s.entries es j)
      ∙ sym (overlay-find es (memory_log s) j ∙ ground arith);
  truncate_log = λ s from j _. ap term_of_entry (find-retain s.entries from j) ∙ ground arith;
  save_log = λ s h j. refl;
}

abbrev pub config : ℕ → NodeConfig
config id = record {
  cluster_id = 1;
  node_id = id;
  peers = 1 ∷ 2 ∷ 3 ∷ [];
  learners = [];
  bootstrap_peers = 1 ∷ 2 ∷ 3 ∷ [];
  timing = record { heartbeat_ms = 50; election_min_ms = 150; election_max_ms = 300 };
  limits = record {
    append_batch_bytes = 262144;
    append_batch_entries = 1024;
    snapshot_chunk_bytes = 262144;
    max_inflight_per_peer = 8;
    max_snapshot_bytes = 4294967296;
    snapshot_stall_timeout_ms = 60000;
    snapshot_max_attempts_per_peer = 3;
    snapshot_attempt_cooldown_ms = 5000;
    compaction_threshold_entries = 4096;
    compaction_threshold_bytes = 67108864;
    compaction_min_retain = 64;
    inbound_decode_error_jail_threshold = 32;
    inbound_decode_error_window_ms = 10000;
    inbound_jail_cooldown_ms = 3000;
    client_mailbox_capacity = 8192;
  };
}

abbrev pub no_metrics : RaftMetrics
no_metrics = record {
  elections_started = 0;
  elections_won = 0;
  step_downs = 0;
  config_changes_applied = 0;
  frames_dropped_nonfatal = 0;
  snapshots_evicted = 0;
  snapshot_installs_refused = 0;
  log_compactions = 0;
}

-- A follower at term 1 that has not voted, with the given log.
abbrev pub node : ℕ → List LogEntry → RaftNode Memory
node id entries = record {
  config = config id;
  storage = record {
    saved = record { current_term = 1; voted_for = none };
    entries = entries;
    snapshot = none;
  };
  hard_state = record { current_term = 1; voted_for = none };
  soft_state = record { leader_id = none; is_leader = false; role = follower; commit_index = 0 };
  pending_custom = [];
  peer_progress = [];
  joint_peers = none;
  pending_snapshots = [];
  snapshot_attempts = [];
  log_metadata = Arena.new 4;
  last_voter_contact = [];
  cached_last_log = last_of entries;
  snapshot_boundary = (0, 0);
  commit_index_pub = 0;
  metrics = no_metrics;
  last_applied = 0;
  compaction_debt_entries = 0;
  compaction_debt_bytes = 0;
  last_leader_contact = none;
  pending_transfer = none;
  forced_campaign_term = none;
  read_probe_seq = 0;
  outbox = [];
  aborted = [];
}

-- The same node as the leader of term 1, with what it knows of the other two.
abbrev pub leader_node : List LogEntry → RaftNode Memory
leader_node entries =
    let n = node 1 entries in
    record n {
      soft_state = record { leader_id = some 1; is_leader = true; role = leader; commit_index = 0 };
      hard_state = record { current_term = 1; voted_for = some 1 };
      peer_progress =
          (2, record { next_index = 2; match_index = 1 })
          ∷ (3, record { next_index = 1; match_index = 0 })
          ∷ [];
    }

abbrev pub one_entry : List LogEntry
one_entry = record { term = 1; index = 1; payload = [] } ∷ []

-- An empty cache answers as every log.
pub node-Coherent :
    (id : ℕ) (entries : List LogEntry) → IsCoherent memory_log memory-IsLog (node id entries)
unfolding Arena.get_term Arena.new
node-Coherent id entries = (new-IsValid 4 (omega arith), λ j t q. ground arith)

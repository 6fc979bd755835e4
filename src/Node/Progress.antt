-- ===== src/Node/Progress.antt =====
-- The progress of a peer on the leader: `handle_append_entries_response` of
-- src/api/node/replication/handler.rs.
use arbitro_raft.Base.{
  ℕ, suc, min, max, leb, ◌⊎◌, inl, inr, Bool-cases, ◌≤◌, ◌<◌, ◌≡◌, Bool, true, false, not, some,
  ◌==◌, arith, if◌then◌else◌, saturating_add, u64_max,
}
use arbitro_raft.Storage.{RaftStorage}
use arbitro_raft.PeerMap.{PeerProgress, get}
use arbitro_raft.Wire.{AppendEntriesResp}
use arbitro_raft.Node.{RaftNode}
use arbitro_raft.Node.Append.{progress_after, handle_append_entries_response}

-- What one response makes of the progress of its sender; `cap` is the place behind the leader's log.
-- A success raises the match index to what it reports, and the next index behind that, as far as the
-- log goes. A rejection leaves the match index; an older one leaves all, and another puts the next
-- index within the log or right behind it. A next index above the cap is not raised.
abbrev pub Progressed : ℕ → Bool → ℕ → PeerProgress → PeerProgress → Type 0
Progressed cap true reported p q =
    (p.match_index ≤ q.match_index)
    × (reported ≤ q.match_index)
    × (q.match_index ≤ max p.match_index reported)
    × (p.next_index ≤ q.next_index)
    × (min (saturating_add reported 1) cap ≤ q.next_index)
    × (q.next_index ≤ max p.next_index cap)
Progressed cap false reported p q =
    (q.match_index ≡ p.match_index)
    × (((reported < p.match_index) × (q ≡ p))
        ⊎ ((p.match_index ≤ reported) × (min 1 cap ≤ q.next_index) × (q.next_index ≤ cap)))

pub progress_after-Progressed :
    (cap : ℕ) (success : Bool) (reported : ℕ) (p : PeerProgress)
    → Progressed cap success reported p (progress_after cap success reported p)
unfolding progress_after
progress_after-Progressed cap true reported p = ground arith
progress_after-Progressed cap false reported p = elim (Bool-cases (leb p.match_index reported)) [
  | inl fresh ↦ (
    ground (arith, fresh),
    inr (ground (arith, fresh), ground (arith, fresh), ground (arith, fresh)),
  )
  | inr old ↦ (ground (arith, old), inl (ground (arith, old), ground (arith, old)))
]

-- A rejection that is not older than what is known lowers the next index that is above the place
-- behind its hint.
pub progress_after-walks_back :
    (cap hint : ℕ) (p : PeerProgress)
    → p.match_index ≤ hint
    → suc hint < p.next_index
    → hint < u64_max
    → (progress_after cap false hint p).next_index < p.next_index
unfolding progress_after
progress_after-walks_back cap hint p h b r = ground arith

module _ {S : Type 0} ⦃st : RaftStorage S⦄ where
  -- The progress of a peer, which was `p`, after a response, of that peer or of another.
  abbrev pub AnsweredBy :
      Bool → AppendEntriesResp → RaftNode S → PeerProgress → PeerProgress → Type 0
  AnsweredBy true resp n p q =
      Progressed (saturating_add n.cached_last_log.0 1) (not (resp.success == 0)) resp.match_index p
        q
  AnsweredBy false resp n p q = q ≡ p

  -- The progress of `j` after the response of `from`.
  abbrev pub Answered : ℕ → ℕ → AppendEntriesResp → RaftNode S → PeerProgress → Type 0
  Answered from j resp n p =
      (q : PeerProgress) × (get (handle_append_entries_response from resp n).1.peer_progress j
        ≡ some q)
      × AnsweredBy (from == j) resp n p q

  answered : Bool → AppendEntriesResp → RaftNode S → PeerProgress → PeerProgress
  answered own resp n p =
      if own
      then progress_after (saturating_add n.cached_last_log.0 1) (not (resp.success == 0))
          resp.match_index p
      else p

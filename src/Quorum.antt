-- ===== src/Quorum.antt =====
-- The quorum arithmetic that elections, reads and commits share: `quorum` of
-- src/api/node/mod.rs, `subset_vote_majority` and `voter_majority` of src/api/node/election.rs, and
-- `subset_quorum_index_into` of src/api/node/replication/shared.rs.
pub mod Overlap
pub mod Index
use arbitro_raft.Base.{
  ℕ, suc, ◌+◌, ◌-◌, ◌/◌, Bool, ◌&&◌, List, [], ◌∷◌, map, Option, none, some, ltb, leb, ◌==◌,
  if◌then◌else◌, length, get_elem?, count_if, contains,
}
use arbitro_raft.PeerMap.{PeerMap, PeerProgress, get}

unfoldable pub quorum : ℕ → ℕ
quorum nodes = nodes / 2 + 1

-- How many members of `subset` are among `granted`, against the quorum of `subset`.
unfoldable pub subset_vote_majority : List ℕ → List ℕ → Bool
unfolding quorum
subset_vote_majority subset granted =
    leb (quorum (length subset)) (count_if (contains granted) subset)

-- `joint_peers` is the pair of the old and the new voters during a transition, `peers` the voters
-- of the configuration outside one.
unfoldable pub voter_majority : Option (List ℕ × List ℕ) → List ℕ → List ℕ → Bool
unfolding subset_vote_majority quorum
voter_majority none peers granted = leb (quorum (length peers)) (length granted)
voter_majority (some (old_peers, new_peers)) peers granted =
    subset_vote_majority old_peers granted && subset_vote_majority new_peers granted

-- The `match_index` that a member counts with: the leader's own log tip for the leader itself, 0
-- for a member without progress.
unfoldable pub ack_of : PeerMap PeerProgress → ℕ → ℕ → ℕ → ℕ
ack_of progress self_id last_index peer =
    if peer == self_id
    then last_index
    else (elim (get progress peer) [ none ↦ 0 | some p ↦ p.match_index ])

-- `sort_unstable_by` with the larger value first; equal numbers cannot be told apart.
unfoldable pub insert_descending : ℕ → List ℕ → List ℕ
insert_descending x [] = x ∷ []
insert_descending x (y ∷ ys) = if ltb x y then y ∷ insert_descending x ys else x ∷ y ∷ ys

unfoldable pub sort_descending : List ℕ → List ℕ
unfolding insert_descending
sort_descending [] = []
sort_descending (x ∷ xs) = insert_descending x (sort_descending xs)

unfoldable pub subset_quorum_index : PeerMap PeerProgress → ℕ → List ℕ → ℕ → Option ℕ
unfolding ack_of sort_descending quorum
subset_quorum_index progress self_id [] last_index = none
subset_quorum_index progress self_id (p ∷ ps) last_index =
    get_elem? (sort_descending (map (ack_of progress self_id last_index) (p ∷ ps)))
      (quorum (length (p ∷ ps)) - 1)

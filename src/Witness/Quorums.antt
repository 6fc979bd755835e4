-- ===== src/Witness/Quorums.antt =====
-- The theorems on majorities, in the three-node configuration.
use arbitro_raft.Base.{ℕ, ◌≡◌, refl, true, List, [], ◌∷◌, some, none, contains, leb, arith}
use arbitro_raft.PeerMap.{PeerMap, PeerProgress}
use arbitro_raft.Quorum.{subset_quorum_index, voter_majority}
use arbitro_raft.Quorum.Overlap.{voter_majority_overlap}
use arbitro_raft.Quorum.Index.{subset_quorum_index-majority, majority_has}

abbrev voters : List ℕ
voters = 1 ∷ 2 ∷ 3 ∷ []

voter_majority_overlap_example :
    (x : ℕ) × (contains (1 ∷ 2 ∷ []) x ≡ true) × (contains (2 ∷ 3 ∷ []) x ≡ true)
unfolding voter_majority
voter_majority_overlap_example =
    voter_majority_overlap none voters (1 ∷ 2 ∷ []) (2 ∷ 3 ∷ []) refl refl (λ x h. ground arith)
      (λ x h. ground arith) refl refl

abbrev progress : PeerMap PeerProgress
progress =
    (2, record { next_index = 6; match_index = 5 })
    ∷ (3, record { next_index = 3; match_index = 2 })
    ∷ []

subset_quorum_index-majority_example :
    (q : ℕ) × (subset_quorum_index progress 1 voters 9 ≡ some q)
    × ((i : ℕ) → leb i q ≡ majority_has progress 1 voters 9 i)
subset_quorum_index-majority_example = subset_quorum_index-majority progress 1 1 (2 ∷ 3 ∷ []) 9

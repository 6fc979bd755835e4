-- ===== src/Quorum/Overlap.antt =====
-- Two majorities of one configuration share a voter.
use arbitro_raft.Base.{
  ℕ, ◌+◌, ◌≤◌, ◌<◌, ◌≡◌, Bool, true, false, ◌&&◌, List, [], ◌∷◌, Option, none, some, length,
  count_if, contains, distinct, arith, inl, inr, Bool-cases,
}
use arbitro_raft.Quorum.{subset_vote_majority, voter_majority}

-- Two tests that together pass more often than the list is long pass together once.
both_pass :
    (p q : ℕ → Bool) (xs : List ℕ)
    → length xs < count_if p xs + count_if q xs
    → (x : ℕ) × (contains xs x ≡ true) × (p x ≡ true) × (q x ≡ true)
both_pass p q [] h = absurd (omega arith)
both_pass p q (y ∷ ys) h = elim (Bool-cases (p y && q y)) [
  | inl e ↦ (y, ground arith, ground arith, ground arith)
  | inr n ↦ let (x, m, a, b) = both_pass p q ys (ground arith) in (x, ground arith, a, b)
]

-- The votes that a set of voters shares.
abbrev pub Shares : List ℕ → List ℕ → List ℕ → Type 0
Shares voters g h =
    (x : ℕ) × (contains voters x ≡ true) × (contains g x ≡ true) × (contains h x ≡ true)

pub subset_overlap :
    (subset g h : List ℕ)
    → subset_vote_majority subset g ≡ true
    → subset_vote_majority subset h ≡ true
    → Shares subset g h
unfolding subset_vote_majority
subset_overlap subset g h a b = both_pass (contains g) (contains h) subset (ground arith)

-- Every entry of `g` is a voter.
abbrev pub IsSubset : List ℕ → List ℕ → Type 0
IsSubset g voters = (x : ℕ) → contains g x ≡ true → contains voters x ≡ true

count_grows :
    (x : ℕ) (g voters : List ℕ)
    → contains g x ≡ false
    → (count_if (contains g) voters ≤ count_if (contains (x ∷ g)) voters)
      × (contains voters x ≡ true
          → count_if (contains g) voters < count_if (contains (x ∷ g)) voters)
count_grows x g [] n = (omega arith, λ h. absurd (ground arith))
count_grows x g (v ∷ vs) n = ground (arith, count_grows x g vs n)

-- Distinct voters count one each.
pub length-le-count :
    (g voters : List ℕ)
    → distinct g ≡ true
    → IsSubset g voters
    → length g ≤ count_if (contains g) voters
length-le-count [] voters d s = omega arith
length-le-count (x ∷ g) voters d s =
    let fresh : contains g x ≡ false = ground arith in
    ground (
      arith,
      count_grows x g voters fresh,
      s x (ground arith),
      length-le-count g voters (ground arith) (λ y h. s y (ground arith)),
    )

-- Two grant lists of distinct voters that both pass the vote majority, in one configuration or in
-- one transition, share a voter.
pub voter_majority_overlap :
    (joint : Option (List ℕ × List ℕ)) (peers g h : List ℕ)
    → distinct g ≡ true
    → distinct h ≡ true
    → IsSubset g peers
    → IsSubset h peers
    → voter_majority joint peers g ≡ true
    → voter_majority joint peers h ≡ true
    → (x : ℕ) × (contains g x ≡ true) × (contains h x ≡ true)
unfolding voter_majority
voter_majority_overlap none peers g h dg dh sg sh a b =
    let (x, _, p, q) =
      both_pass (contains g) (contains h) peers
        (ground (arith, length-le-count g peers dg sg, length-le-count h peers dh sh)) in
    (x, p, q)
voter_majority_overlap (some (old_peers, new_peers)) peers g h dg dh sg sh a b =
    let (x, _, p, q) = subset_overlap old_peers g h (ground arith) (ground arith) in (x, p, q)

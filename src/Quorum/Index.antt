-- ===== src/Quorum/Index.antt =====
-- The quorum index is the highest index that a majority of the subset has.
use arbitro_raft.Base.{
  ℕ, zero, suc, ◌-◌, ◌≤◌, ◌<◌, ◌≡◌, refl, ◌∙◌, ap, Bool, List, [], ◌∷◌, map, some, ltb, leb, length,
  get_elem?, count_if, arith, length-map,
}
use arbitro_raft.PeerMap.{PeerMap, PeerProgress}
use arbitro_raft.Quorum.{quorum, ack_of, insert_descending, sort_descending, subset_quorum_index}

count_if-insert :
    (p : ℕ → Bool) (x : ℕ) (xs : List ℕ) → count_if p (insert_descending x xs) ≡ count_if p (x ∷ xs)
unfolding insert_descending
count_if-insert p x [] = refl
count_if-insert p x (y ∷ ys) = ground (arith, count_if-insert p x ys)

count_if-sort : (p : ℕ → Bool) (xs : List ℕ) → count_if p (sort_descending xs) ≡ count_if p xs
unfolding sort_descending
count_if-sort p [] = refl
count_if-sort p (x ∷ xs) =
    count_if-insert p x (sort_descending xs) ∙ ground (arith, count_if-sort p xs)

-- Each entry is at most the one before it.
abbrev Descending : ℕ → List ℕ → Type 0
Descending b [] = Unit {0}
Descending b (x ∷ xs) = (x ≤ b) × Descending x xs

abbrev IsDescending : List ℕ → Type 0
IsDescending [] = Unit {0}
IsDescending (x ∷ xs) = Descending x xs

insert-Descending :
    (b x : ℕ) (xs : List ℕ) → x ≤ b → Descending b xs → Descending b (insert_descending x xs)
unfolding insert_descending
insert-Descending b x [] h d = (h, tt)
insert-Descending b x (y ∷ ys) h d = ground (arith, insert-Descending y x ys)

insert-IsDescending :
    (x : ℕ) (xs : List ℕ) → IsDescending xs → IsDescending (insert_descending x xs)
unfolding insert_descending
insert-IsDescending x [] d = tt
insert-IsDescending x (y ∷ ys) d = ground (arith, insert-Descending y x ys)

sort-IsDescending : (xs : List ℕ) → IsDescending (sort_descending xs)
unfolding sort_descending
sort-IsDescending [] = tt
sort-IsDescending (x ∷ xs) = insert-IsDescending x (sort_descending xs) (sort-IsDescending xs)

-- Above the bound of a descending list nothing is counted.
count_above : (b i : ℕ) (xs : List ℕ) → Descending b xs → b < i → count_if (leb i) xs ≡ 0
count_above b i [] d h = refl
count_above b i (x ∷ xs) d h = ground (arith, count_above x i xs d.1)

nth-Descending :
    (b : ℕ) (xs : List ℕ) (k q i : ℕ)
    → Descending b xs
    → get_elem? xs k ≡ some q
    → leb i q ≡ ltb k (count_if (leb i) xs)
nth-Descending b [] k q i d e = cc
nth-Descending b (x ∷ xs) zero q i d e = ground (arith, count_above x i xs d.1)
nth-Descending b (x ∷ xs) (suc k) q i d e =
    ground (arith, nth-Descending x xs k q i d.1 e, count_above x i xs d.1)

count_if-map :
    (p : ℕ → Bool) (f : ℕ → ℕ) (xs : List ℕ) → count_if p (map f xs) ≡ count_if (λ x. p (f x)) xs
count_if-map p f [] = refl
count_if-map p f (x ∷ xs) = ground (arith, count_if-map p f xs)

-- A majority of the subset has replicated up to `index`, by what the leader knows.
abbrev pub majority_has : PeerMap PeerProgress → ℕ → List ℕ → ℕ → ℕ → Bool
majority_has progress self_id subset last_index index =
    leb (quorum (length subset))
      (count_if (λ p. leb index (ack_of progress self_id last_index p)) subset)

get_elem?-defined : (xs : List ℕ) (k : ℕ) → k < length xs → (q : ℕ) × (get_elem? xs k ≡ some q)
get_elem?-defined [] k h = absurd (omega arith)
get_elem?-defined (x ∷ xs) zero h = (x, refl)
get_elem?-defined (x ∷ xs) (suc k) h = get_elem?-defined xs k (omega arith)

length-insert : (x : ℕ) (xs : List ℕ) → length (insert_descending x xs) ≡ suc (length xs)
unfolding insert_descending
length-insert x [] = refl
length-insert x (y ∷ ys) = ground (arith, length-insert x ys)

length-sort : (xs : List ℕ) → length (sort_descending xs) ≡ length xs
unfolding sort_descending
length-sort [] = refl
length-sort (x ∷ xs) = length-insert x (sort_descending xs) ∙ ap suc (length-sort xs)

nth_sorted :
    (xs : List ℕ) (k q i : ℕ)
    → IsDescending xs
    → get_elem? xs k ≡ some q
    → leb i q ≡ ltb k (count_if (leb i) xs)
nth_sorted [] k q i d e = cc
nth_sorted (x ∷ xs) k q i d e = nth-Descending x (x ∷ xs) k q i (omega arith, d) e

quorum_pos : (n : ℕ) → 0 < quorum n
unfolding quorum
quorum_pos n = omega arith

quorum-le : (n : ℕ) → quorum (suc n) ≤ suc n
unfolding quorum
quorum-le n = omega arith

count_sorted :
    (progress : PeerMap PeerProgress) (self_id last_index : ℕ) (subset : List ℕ) (i : ℕ)
    → ltb
        (quorum (length subset) - 1)
        (count_if (leb i) (sort_descending (map (ack_of progress self_id last_index) subset)))
      ≡ majority_has progress self_id subset last_index i
count_sorted progress self_id last_index subset i =
    let ack = ack_of progress self_id last_index in
    ground (
      arith,
      count_if-sort (leb i) (map ack subset),
      count_if-map (leb i) ack subset,
      quorum_pos (length subset),
    )

-- A subset with a member has a quorum index, and an index is at most the quorum index exactly
-- when a majority of the subset has replicated up to it.
pub subset_quorum_index-majority :
    (progress : PeerMap PeerProgress) (self_id p : ℕ) (ps : List ℕ) (last_index : ℕ)
    → (q : ℕ) × (subset_quorum_index progress self_id (p ∷ ps) last_index ≡ some q)
      × ((i : ℕ) → leb i q ≡ majority_has progress self_id (p ∷ ps) last_index i)
unfolding subset_quorum_index
subset_quorum_index-majority progress self_id p ps last_index =
    let ack = ack_of progress self_id last_index in
    let acks = map ack (p ∷ ps) in
    let n = length (p ∷ ps) in
    let (q, e) =
      get_elem?-defined (sort_descending acks) (quorum n - 1)
        (omega (arith, length-sort acks, length-map ps ack, quorum-le (length ps), quorum_pos n)) in
    (
      q,
      e,
      λ i.
          nth_sorted (sort_descending acks) (quorum n - 1) q i (sort-IsDescending acks) e
          ∙ count_sorted progress self_id last_index (p ∷ ps) i,
    )

-- ===== src/PeerMap/Laws.antt =====
-- The laws of the peer map. A map built by `insert` has each key once; `remove` relies on that.
use arbitro_raft.Base.{
  ℕ, ◌≡◌, refl, ap, true, false, ◌||◌, [], ◌∷◌, Option, none, some, arith, ◌==◌, if◌then◌else◌,
  contains, distinct, Bool-cases, inl, inr,
}
use arbitro_raft.PeerMap.{PeerMap, get, insert, update, contains_key, swap_in, remove, keys}

abbrev pub map_option {ℓ κ} : {A : Type ℓ} {B : Type κ} → (A → B) → Option A → Option B
map_option f none = none
map_option f (some a) = some (f a)

module _ {ℓ} {V : Type ℓ} where
  pub get-insert :
      (m : PeerMap V) (key j : ℕ) (v : V)
      → get (insert m key v) j ≡ (if key == j then some v else get m j)
  unfolding get insert
  get-insert [] key j v = refl
  get-insert ((k, w) ∷ rest) key j v = ground (arith, get-insert rest key j v)

  pub contains_key-get : (m : PeerMap V) (j : ℕ) → contains_key m j ≡ contains (keys m) j
  unfolding contains_key keys
  contains_key-get [] j = refl
  contains_key-get ((k, w) ∷ rest) j = ap (λ b. (k == j) || b) (contains_key-get rest j)

  pub get-none : (m : PeerMap V) (j : ℕ) → contains (keys m) j ≡ false → get m j ≡ none
  unfolding get keys
  get-none [] j h = refl
  get-none ((k, w) ∷ rest) j h = ground (arith, get-none rest j)

  pub get-some : (m : PeerMap V) (j : ℕ) → contains (keys m) j ≡ true → (v : V) × (get m j ≡ some v)
  unfolding get keys
  get-some [] j h = absurd (ground arith)
  get-some ((k, w) ∷ rest) j h = elim (Bool-cases (k == j)) [
    | inl here ↦ (w, rw here)
    | inr there ↦ let (v, e) = get-some rest j (ground arith) in (v, rw there e)
  ]

  pub contains-keys-insert :
      (m : PeerMap V) (key j : ℕ) (v : V)
      → contains (keys (insert m key v)) j ≡ ((key == j) || contains (keys m) j)
  unfolding insert keys
  contains-keys-insert [] key j v = ground arith
  contains-keys-insert ((k, w) ∷ rest) key j v = ground (arith, contains-keys-insert rest key j v)

  pub distinct-insert :
      (m : PeerMap V) (key : ℕ) (v : V)
      → distinct (keys m) ≡ true
      → distinct (keys (insert m key v)) ≡ true
  unfolding insert keys
  distinct-insert [] key v h = refl
  distinct-insert ((k, w) ∷ rest) key v h =
      ground (arith, distinct-insert rest key v, contains-keys-insert rest key k v)

  pub get-update :
      (m : PeerMap V) (key j : ℕ) (f : V → V)
      → get (update m key f) j ≡ (if key == j then map_option f (get m j) else get m j)
  unfolding get update
  get-update [] key j f = ground arith
  get-update ((k, w) ∷ rest) key j f = ground (arith, get-update rest key j f)

  pub keys-update : (m : PeerMap V) (key : ℕ) (f : V → V) → keys (update m key f) ≡ keys m
  unfolding update keys
  keys-update [] key f = refl
  keys-update ((k, w) ∷ rest) key f = ground (arith, keys-update rest key f)

  contains-keys-swap_in :
      (m : PeerMap V) (j : ℕ) → contains (keys (swap_in m)) j ≡ contains (keys m) j
  unfolding swap_in keys
  contains-keys-swap_in [] j = refl
  contains-keys-swap_in (e ∷ []) j = refl
  contains-keys-swap_in ((k, w) ∷ f ∷ rest) j = ground (arith, contains-keys-swap_in (f ∷ rest) j)

  get-swap_in : (m : PeerMap V) (j : ℕ) → distinct (keys m) ≡ true → get (swap_in m) j ≡ get m j
  unfolding get swap_in keys
  get-swap_in [] j h = refl
  get-swap_in (e ∷ []) j h = refl
  get-swap_in ((k, w) ∷ f ∷ rest) j h =
      ground (arith, get-swap_in (f ∷ rest) j, contains-keys-swap_in (f ∷ rest) k)

  distinct-swap_in : (m : PeerMap V) → distinct (keys m) ≡ true → distinct (keys (swap_in m)) ≡ true
  unfolding swap_in keys
  distinct-swap_in [] h = refl
  distinct-swap_in (e ∷ []) h = h
  distinct-swap_in ((k, w) ∷ f ∷ rest) h =
      ground (arith, distinct-swap_in (f ∷ rest), contains-keys-swap_in (f ∷ rest) k)

  -- In a map that has each key once, a removal takes away the entry of its key and leaves what every
  -- other key finds.
  pub get-remove :
      (m : PeerMap V) (key j : ℕ)
      → distinct (keys m) ≡ true
      → get (remove m key) j ≡ (if key == j then none else get m j)
  unfolding get remove keys
  get-remove [] key j h = ground arith
  get-remove ((k, w) ∷ rest) key j h =
      ground (arith, get-remove rest key j, get-swap_in rest j, get-none rest j)

  pub contains-keys-remove :
      (m : PeerMap V) (key j : ℕ)
      → distinct (keys m) ≡ true
      → contains (keys (remove m key)) j ≡ (if key == j then false else contains (keys m) j)
  unfolding remove keys
  contains-keys-remove [] key j h = ground arith
  contains-keys-remove ((k, w) ∷ rest) key j h =
      ground (arith, contains-keys-remove rest key j, contains-keys-swap_in rest j)

  pub distinct-remove :
      (m : PeerMap V) (key : ℕ) → distinct (keys m) ≡ true → distinct (keys (remove m key)) ≡ true
  unfolding remove keys
  distinct-remove [] key h = refl
  distinct-remove ((k, w) ∷ rest) key h =
      ground
        (arith, distinct-remove rest key, distinct-swap_in rest, contains-keys-remove rest key k)

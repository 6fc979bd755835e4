-- ===== src/PeerMap.antt =====
-- src/api/node/progress.rs: the linear-scan map over peers, and what the leader tracks of a peer.
-- The `HashMap`s keyed by a `PeerId` are this map too: the engine looks their entries up by key.
pub mod Laws
use arbitro_raft.Base.{
  ℕ, Bool, true, false, ◌||◌, List, [], ◌∷◌, Option, none, some, ◌==◌, if◌then◌else◌,
}

abbrev pub PeerMap {ℓ} : Type ℓ → Type ℓ
PeerMap V = List (ℕ × V)

module _ {ℓ} {V : Type ℓ} where
  unfoldable pub is_empty : PeerMap V → Bool
  is_empty [] = true
  is_empty (_ ∷ _) = false

  unfoldable pub get : PeerMap V → ℕ → Option V
  get [] key = none
  get ((k, v) ∷ rest) key = if k == key then some v else get rest key

  unfoldable pub insert : PeerMap V → ℕ → V → PeerMap V
  insert [] key value = (key, value) ∷ []
  insert ((k, v) ∷ rest) key value =
      if k == key then (k, value) ∷ rest else (k, v) ∷ insert rest key value

  -- A write through `get_mut`: nothing happens to a key that is not there.
  unfoldable pub update : PeerMap V → ℕ → (V → V) → PeerMap V
  update [] key f = []
  update ((k, v) ∷ rest) key f = if k == key then (k, f v) ∷ rest else (k, v) ∷ update rest key f

  unfoldable pub contains_key : PeerMap V → ℕ → Bool
  contains_key [] key = false
  contains_key ((k, v) ∷ rest) key = (k == key) || contains_key rest key

  -- `Vec::swap_remove` at the head: the last entry takes the place of the head.
  unfoldable pub swap_in : PeerMap V → PeerMap V
  swap_in [] = []
  swap_in (e ∷ []) = e ∷ []
  swap_in (e ∷ f ∷ rest) = elim (swap_in (f ∷ rest)) [
    | [] ↦ e ∷ []
    | last ∷ front ↦ last ∷ e ∷ front
  ]

  unfoldable pub remove : PeerMap V → ℕ → PeerMap V
  unfolding swap_in
  remove [] key = []
  remove ((k, v) ∷ rest) key = if k == key then swap_in rest else (k, v) ∷ remove rest key

  unfoldable pub keys : PeerMap V → List ℕ
  keys [] = []
  keys ((k, v) ∷ rest) = k ∷ keys rest

pub record PeerProgress : Type 0 where
  pub next_index : ℕ
  pub match_index : ℕ

pub record AppendAttemptState : Type 0 where
  pub attempts : ℕ
  pub sent_last_index : ℕ

pub data AppendAdvance : Type 0 where
  completed dropped ignored : AppendAdvance
  retry : AppendAttemptState → AppendAdvance

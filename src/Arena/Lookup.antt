-- ===== src/Arena/Lookup.antt =====
-- The well-formed arena, and what `get_term` reads from it.
use arbitro_raft.Base.{
  ℕ, ◌+◌, ◌-◌, ◌≤◌, ◌<◌, ◌≡◌, ap, ◌∙◌, Bool, true, false, ◌&&◌, Option, some, none, arith, ltb, leb,
  if◌then◌else◌, inl, inr, length, length-replicate, u64_max, Bool-cases,
}
use arbitro_raft.Arena.{LogMetadataSlot, LogMetadataArena, new, get_term}
use arbitro_raft.Arena.Slots.{slot_content}

-- The head is a place of the ring, at most the whole ring is used, the window ends below
-- `u64::MAX`, and the slot of each entry of the window holds that entry's index.
pub record IsValid (a : LogMetadataArena) : Type 0 where
  pub head_lt : a.head < length a.slots
  pub len_le : a.len ≤ length a.slots
  pub in_range : a.base_index + a.len ≤ u64_max
  pub holds : (i : ℕ) → i < a.len → (t : ℕ) × (slot_content a i ≡ some (t, a.base_index + i))

-- Whether `j` lies in the window of the cached indexes.
abbrev pub in_window : LogMetadataArena → ℕ → Bool
in_window a j = leb a.base_index j && ltb j (a.base_index + a.len)

get_term_read :
    (a : LogMetadataArena) (j t : ℕ)
    → IsValid a
    → in_window a j ≡ true
    → slot_content a (j - a.base_index) ≡ some (t, j)
    → get_term a j ≡ some t
unfolding get_term
get_term_read a j t v w e = ground (arith, v.head_lt, v.in_range)

abbrev pub term_of : Option (ℕ × ℕ) → Option ℕ
term_of none = none
term_of (some (t, i)) = some t

-- Outside the window nothing is cached.
get_term_outside :
    (a : LogMetadataArena) (j : ℕ) → IsValid a → in_window a j ≡ false → get_term a j ≡ none
unfolding get_term
get_term_outside a j v w = ground (arith, v.in_range)

-- The term in the slot that `j` has if it lies in the window.
unfoldable pub cached : LogMetadataArena → ℕ → Option ℕ
cached a j =
    let t = term_of (slot_content a (j - a.base_index)) in if in_window a j then t else none

-- A well-formed arena answers by the window alone.
pub get_term_lem : (a : LogMetadataArena) (j : ℕ) → IsValid a → get_term a j ≡ cached a j
unfolding cached
get_term_lem a j v = elim (Bool-cases (in_window a j)) [
  | inr o ↦ rw (get_term_outside a j v o, o)
  | inl w ↦
      let (t, e) = v.holds (j - a.base_index) (ground arith) in
      let here : a.base_index + (j - a.base_index) ≡ j = ground arith in
      let e' = e ∙ ap (λ x. some (t, x)) here in rw (get_term_read a j t v w e', w, e')
]

abbrev empty_slot : LogMetadataSlot
empty_slot = record { term = 0; index = 0; generation = 0 }

pub new-IsValid : (capacity : ℕ) → 0 < capacity → IsValid (new capacity)
unfolding new
new-IsValid capacity h = record {
  head_lt = omega (arith, length-replicate capacity empty_slot);
  len_le = omega arith;
  in_range = omega arith;
  holds = λ i h. absurd (omega arith);
}

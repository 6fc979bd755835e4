-- ===== src/Arena/Append.antt =====
-- `append` of the arena: what it keeps, what it adds and what it drops.
use arbitro_raft.Base.{
  ℕ, ◌+◌, ◌<◌, ◌≡◌, refl, sym, ◌∙◌, Bool, false, not, ◌&&◌, some, none, arith, ◌==◌, if◌then◌else◌,
  inl, inr, length, u64_max, Bool-cases,
}
use arbitro_raft.Arena.{LogMetadataArena, get_term, evict, make_room, reseat, append}
use arbitro_raft.Arena.Slots.{length-bump_slot}
use arbitro_raft.Arena.Lookup.{IsValid}
use arbitro_raft.Arena.Laws.{
  evict-IsValid, get_term-evict, push_slot-IsValid, get_term-push_slot, reseat-Seated,
}

length-evict : (a : LogMetadataArena) → length (evict a).slots ≡ length a.slots
unfolding evict
length-evict a = length-bump_slot a.slots a.head

-- Whether `append` at `index` keeps what the arena answers at `j`: `index` continues the window,
-- and `j` is not the oldest entry of a full ring.
pub survives : LogMetadataArena → ℕ → ℕ → Bool
survives a index j =
    (index == a.base_index + a.len) && not (a.len == length a.slots && (j == a.base_index))

-- After `append index term` the arena is valid, answers `term` at `index`, and elsewhere what it
-- answered before or, where the entry did not survive, nothing.
abbrev pub Appended : LogMetadataArena → ℕ → ℕ → LogMetadataArena → Type 0
Appended a index term b =
    IsValid b
    × ((j : ℕ)
        → get_term b j
          ≡ (if j == index then some term else if survives a index j then get_term a j else none))

-- `make_room` on a valid arena.
abbrev Roomy : LogMetadataArena → LogMetadataArena → Type 0
Roomy b c =
    IsValid c
    × (c.len < length c.slots)
    × (c.base_index + c.len ≡ b.base_index + b.len)
    × ((j : ℕ)
        → get_term c j
          ≡ (if (b.len == length b.slots) && (j == b.base_index) then none else get_term b j))

make_room-Roomy :
    (b : LogMetadataArena) (m : ℕ) → IsValid b → length b.slots ≡ m → Roomy b (make_room b m)
unfolding make_room evict
make_room-Roomy b m v e = elim (Bool-cases (b.len == m)) [
  | inl full ↦
      rw (full, make_room)
        (
          evict-IsValid b v (ground (arith, v.head_lt)),
          ground (arith, v.head_lt, length-evict b),
          ground (arith, v.in_range, v.head_lt),
          λ j. get_term-evict b v j (ground (arith, v.head_lt)) ∙ ground arith,
        )
  | inr room ↦ rw (room, make_room) (v, ground (arith, v.len_le), refl, λ j. ground arith)
]

-- On a valid arena and an index below `u64::MAX`, `append` leaves a valid arena that answers the
-- new term at the index, and elsewhere what it answered before or, where the entry did not survive,
-- nothing.
pub append-Appended :
    (a : LogMetadataArena) (index term : ℕ)
    → IsValid a
    → index < u64_max
    → Appended a index term (append a index term)
unfolding append survives
append-Appended a index term v h =
    let b = reseat a index in
    let m = length a.slots in
    let (vb, eb, gb, wb, lb) = reseat-Seated a v index h in
    let (vc, rc, ec, gc) = make_room-Roomy b m vb lb in
    let n : (m == 0) ≡ false = ground (arith, v.head_lt) in
    rw (n, append)
      (
        push_slot-IsValid (make_room b m) vc index term rc (eb ∙ sym ec) h,
        λ j.
            get_term-push_slot (make_room b m) vc index term j rc (eb ∙ sym ec) h
            ∙ ground (arith, gc j, gb j),
      )

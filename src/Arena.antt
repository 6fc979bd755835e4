-- ===== src/Arena.antt =====
-- src/api/node/generational.rs: the circular arena that caches the terms of the last log entries.
-- The boxed slice is the list `slots`; `%` by its length gives the place of an entry in it.
pub mod Slots
pub mod Lookup
pub mod Laws
pub mod Append
pub mod Coherence
use arbitro_raft.Base.{
  ℕ, zero, suc, ◌+◌, ◌-◌, ◌%◌, Bool, ◌&&◌, List, Option, some, none, ltb, leb, ◌==◌, if◌then◌else◌,
  length, get_elem?, set, replicate, saturating_add, wrapping_add32,
}

pub record LogMetadataSlot : Type 0 where
  pub term : ℕ
  pub index : ℕ
  pub generation : ℕ

pub record LogMetadataArena : Type 0 where
  pub slots : List LogMetadataSlot
  pub head : ℕ
  pub len : ℕ
  pub base_index : ℕ
  pub generation : ℕ

unfoldable pub new : ℕ → LogMetadataArena
new capacity = record {
  slots = replicate capacity (record { term = 0; index = 0; generation = 0 });
  head = 0;
  len = 0;
  base_index = 0;
  generation = 1;
}

-- `slots[i].generation = slots[i].generation.wrapping_add(1)`.
unfoldable pub bump_slot : List LogMetadataSlot → ℕ → List LogMetadataSlot
bump_slot slots i = elim (get_elem? slots i) [
  | none ↦ slots
  | some s ↦ set slots i (record s { generation = wrapping_add32 s.generation 1 })
]

-- The loops `for i in first..first + n` over `slots[(head + i) % cap]`.
unfoldable pub bump_from : List LogMetadataSlot → ℕ → ℕ → ℕ → ℕ → List LogMetadataSlot
bump_from slots head cap first zero = slots
bump_from slots head cap first (suc n) =
    bump_from (bump_slot slots ((head + first) % cap)) head cap (first + 1) n

unfoldable pub clear : LogMetadataArena → ℕ → LogMetadataArena
clear a new_base = record {
  slots = bump_from a.slots a.head (length a.slots) 0 a.len;
  head = 0;
  len = 0;
  base_index = new_base;
  generation = wrapping_add32 a.generation 1;
}

-- The block of `append` that runs when the arena is full: it drops the oldest entry.
unfoldable pub evict : LogMetadataArena → LogMetadataArena
unfolding bump_slot
evict a = record a {
  slots = bump_slot a.slots a.head;
  head = (a.head + 1) % length a.slots;
  base_index = saturating_add a.base_index 1;
  len = a.len - 1;
}

-- The end of `append`: the write behind the last entry.
unfoldable pub push_slot : LogMetadataArena → ℕ → ℕ → LogMetadataArena
push_slot a index term = record a {
  slots =
      set a.slots ((a.head + a.len) % length a.slots)
        (record { term = term; index = index; generation = a.generation });
  len = a.len + 1;
}

-- The first two blocks of `append`: an empty arena starts at `index`, one that `index` does not
-- continue is emptied.
unfoldable pub reseat : LogMetadataArena → ℕ → LogMetadataArena
reseat a index =
    let a' = if a.len == 0 then record a { base_index = index } else a in
    if index == saturating_add a'.base_index a'.len then a' else clear a' index

unfoldable pub make_room : LogMetadataArena → ℕ → LogMetadataArena
unfolding evict
make_room a cap = if a.len == cap then evict a else a

unfoldable pub append : LogMetadataArena → ℕ → ℕ → LogMetadataArena
append a index term =
    if length a.slots == 0
    then a
    else push_slot (make_room (reseat a index) (length a.slots)) index term

unfoldable pub get_term : LogMetadataArena → ℕ → Option ℕ
get_term a index =
    if length a.slots == 0
    then none
    else if a.len == 0
    then none
    else if leb a.base_index index && ltb index (saturating_add a.base_index a.len)
    then (elim (get_elem? a.slots ((a.head + (index - a.base_index)) % length a.slots)) [
      | none ↦ none
      | some slot ↦ if slot.index == index then some slot.term else none
    ])
    else none

-- The end of `truncate_suffix`: a cut inside the window.
unfoldable pub shorten : LogMetadataArena → ℕ → LogMetadataArena
unfolding bump_from bump_slot
shorten a from = record a {
  slots =
      bump_from a.slots a.head (length a.slots) (from - a.base_index)
        (a.len - (from - a.base_index));
  len = from - a.base_index;
}

unfoldable pub truncate_suffix : LogMetadataArena → ℕ → LogMetadataArena
truncate_suffix a from =
    if a.len == 0
    then a
    else if leb from a.base_index
    then clear a from
    else if ltb from (saturating_add a.base_index a.len)
    then shorten a from
    else a

-- ===== src/Slots.antt =====
-- src/api/arbitro_raft/slot.rs: the slots that tell a waiting client how its proposal ended. An
-- operation runs as one step, so a compare-and-exchange never fails; the wakers are left out. The
-- bit operations are arithmetic on the words.
pub mod Leases
use arbitro_raft.Base.{
  ℕ, zero, suc, ◌+◌, ◌*◌, ◌/◌, ◌%◌, ◌^◌, Bool, true, false, not, List, Option, none, some, ◌==◌,
  if◌then◌else◌, length, get_elem?, set, replicate,
}
use arbitro_raft.Error.{not_leader, Result, ok, err}

abbrev pub slot_pending : ℕ
slot_pending = 0

abbrev pub tag_not_leader : ℕ
tag_not_leader = 9223372036854775808

abbrev pub tag_committed : ℕ
tag_committed = 4611686018427387904

pub record Slot : Type 0 where
  pub state : ℕ
  pub generation : ℕ

pub record SlotRegistry : Type 0 where
  pub arena : List Slot
  pub cursor : ℕ

unfoldable pub store_committed : ℕ → Slot → Slot
store_committed index slot = record slot { state = tag_committed + index % tag_committed }

unfoldable pub store_error : Slot → Slot
store_error slot = record slot { state = tag_not_leader }

unfoldable pub decode_state : ℕ → Result ℕ
decode_state v =
    if v / tag_not_leader % 2 == 0 then ok (v % tag_committed) else err (not_leader none)

-- `SlotId::new`, of two 32-bit numbers, and its halves.
unfoldable pub slot_id : ℕ → ℕ → ℕ
slot_id index generation = generation * 2 ^ 32 + index

unfoldable pub index_of : ℕ → ℕ
index_of id = id % 2 ^ 32

unfoldable pub generation_of : ℕ → ℕ
generation_of id = id / 2 ^ 32 % 2 ^ 32

unfoldable pub new_slots : ℕ → SlotRegistry
new_slots capacity = record {
  arena = replicate capacity (record { state = tag_not_leader; generation = 0 });
  cursor = 0;
}

-- A slot that is taken: pending, at its next generation, which wraps.
unfoldable pub take_slot : Slot → Slot
take_slot slot = record { state = slot_pending; generation = (slot.generation + 1) % 2 ^ 64 }

-- The slot at an index, if it is free.
unfoldable pub free_at : SlotRegistry → ℕ → Option Slot
free_at r idx = elim (get_elem? r.arena idx) [
  | none ↦ none
  | some slot ↦ if slot.state == slot_pending then none else some slot
]

unfoldable pub lease_at : SlotRegistry → ℕ → Slot → ℕ × SlotRegistry
unfolding take_slot slot_id
lease_at r idx slot = (
  slot_id idx ((slot.generation + 1) % 2 ^ 32),
  record r { arena = set r.arena idx (take_slot slot) },
)

-- The `for` loop: `left` rounds, from round `i`.
unfoldable pub probe : SlotRegistry → ℕ → ℕ → ℕ → Option ℕ × SlotRegistry
unfolding free_at lease_at
probe r start i zero = (none, r)
probe r start i (suc left) =
    let idx = (start + i) % 2 ^ 64 % length r.arena in
    let rest = probe r start (i + 1) left in
    elim (free_at r idx) [
      | none ↦ rest
      | some slot ↦ (some (lease_at r idx slot).0, (lease_at r idx slot).1)
    ]

unfoldable pub lease : SlotRegistry → Option ℕ × SlotRegistry
unfolding probe
lease r = probe (record r { cursor = (r.cursor + 1) % 2 ^ 64 }) r.cursor 0 (length r.arena)

-- A write to the slot of an identifier, which is in range for one that was leased.
abbrev pub on_slot : SlotRegistry → ℕ → (Slot → Slot) → SlotRegistry
on_slot r idx f = elim (get_elem? r.arena idx) [
  | none ↦ r
  | some slot ↦ record r { arena = set r.arena idx (f slot) }
]

unfoldable pub release : SlotRegistry → ℕ → SlotRegistry
unfolding index_of
release r id =
    on_slot r (index_of id)
      (λ slot. if slot.state == slot_pending then record slot { state = tag_not_leader } else slot)

unfoldable pub is_current : ℕ → Slot → Bool
unfolding generation_of
is_current id slot = slot.generation % 2 ^ 32 == generation_of id

unfoldable pub notify_committed : SlotRegistry → ℕ → ℕ → SlotRegistry
unfolding index_of is_current store_committed
notify_committed r id index =
    on_slot r (index_of id)
      (λ slot. if is_current id slot then store_committed index slot else slot)

unfoldable pub notify_error : SlotRegistry → ℕ → SlotRegistry
unfolding index_of is_current store_error
notify_error r id =
    on_slot r (index_of id) (λ slot. if is_current id slot then store_error slot else slot)

-- The state that the owner of an identifier polls.
unfoldable pub state_of : SlotRegistry → ℕ → Option ℕ
unfolding index_of
state_of r id = elim (get_elem? r.arena (index_of id)) [ none ↦ none | some slot ↦ some slot.state ]

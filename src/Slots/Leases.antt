-- ===== src/Slots/Leases.antt =====
-- What a leased slot delivers, to whom, and what ends its wait.
use arbitro_raft.Base.{
  ℕ, zero, suc, ◌+◌, ◌%◌, ◌^◌, ◌≡◌, ◌≢◌, ◌<◌, ◌≤◌, refl, ap, ◌∙◌, subst, true, false, List, [], ◌∷◌,
  Option, none, some, ◌==◌, arith, if◌then◌else◌, length, get_elem?, set, get_elem?-set_self,
  Bool-cases, Option-cases, inl, inr,
}
use arbitro_raft.Error.{not_leader, ok, err}
use arbitro_raft.Slots.{
  Slot, SlotRegistry, slot_pending, tag_not_leader, tag_committed, store_committed, decode_state,
  slot_id, index_of, generation_of, take_slot, free_at, lease_at, probe, lease, on_slot, release,
  is_current, notify_committed, notify_error, state_of,
}

get_elem?-bound : (xs : List Slot) (i : ℕ) (s : Slot) → get_elem? xs i ≡ some s → i < length xs
get_elem?-bound [] i s e = ground (arith, e)
get_elem?-bound (x ∷ xs) zero s e = ground arith
get_elem?-bound (x ∷ xs) (suc i) s e = ground (arith, get_elem?-bound xs i s e)

set-same : (xs : List Slot) (i : ℕ) (s : Slot) → get_elem? xs i ≡ some s → set xs i s ≡ xs
set-same [] i s e = refl
set-same (x ∷ xs) zero s e = ground (arith, e)
set-same (x ∷ xs) (suc i) s e = ap (λ ys. x ∷ ys) (set-same xs i s e)

-- A call of `on_slot` that keeps the slot keeps the registry.
on_slot-keeps :
    (r : SlotRegistry) (i : ℕ) (f : Slot → Slot) (s : Slot)
    → get_elem? r.arena i ≡ some s
    → f s ≡ s
    → on_slot r i f ≡ r
on_slot-keeps r i f s e k = rw (on_slot, e, k, set-same r.arena i s e) refl

on_slot-writes :
    (r : SlotRegistry) (i : ℕ) (f : Slot → Slot) (s : Slot)
    → get_elem? r.arena i ≡ some s
    → get_elem? (on_slot r i f).arena i ≡ some (f s)
on_slot-writes r i f s e =
    rw (on_slot, e) (get_elem?-set_self r.arena i (f s) (get_elem?-bound r.arena i s e))

-- What a lease found, on the registry that it looked through.
abbrev pub Found : SlotRegistry → Option ℕ × SlotRegistry → Type 0
Found r (none, m) = m ≡ r
Found r (some id, m) =
    (idx : ℕ) × (slot : Slot) × (free_at r idx ≡ some slot) × ((id, m) ≡ lease_at r idx slot)

probe-Found : (r : SlotRegistry) (start i left : ℕ) → Found r (probe r start i left)
unfolding probe
probe-Found r start i zero = refl
probe-Found r start i (suc left) =
    let idx = (start + i) % 2 ^ 64 % length r.arena in
    elim (Option-cases (free_at r idx)) [
      | inl e ↦ rw (probe, e) (probe-Found r start (i + 1) left)
      | inr (slot, e) ↦ rw (probe, e) (idx, slot, e, refl)
    ]

free_at-free :
    (r : SlotRegistry) (idx : ℕ) (slot : Slot)
    → free_at r idx ≡ some slot
    → (get_elem? r.arena idx ≡ some slot) × (slot.state ≢ slot_pending)
unfolding free_at
free_at-free r idx slot e = elim (Option-cases (get_elem? r.arena idx)) [
  | inl none_there ↦ ground (arith, e, none_there)
  | inr (s, there) ↦ elim (Bool-cases (s.state == slot_pending)) [
    | inl busy ↦ ground (arith, e, there, busy)
    | inr free ↦
        let same : s ≡ slot = ground (arith, e, there, free) in
        (rw (there, same) refl, λ p. ground (arith, same, free, p))
  ]
]

slot_id-halves :
    (i g : ℕ)
    → i < 2 ^ 32
    → g < 2 ^ 32
    → (index_of (slot_id i g) ≡ i) × (generation_of (slot_id i g) ≡ g)
unfolding slot_id index_of generation_of
slot_id-halves i g a b = (omega (arith, a, b), omega (arith, a, b))

decode_state-committed :
    (index : ℕ)
    → index < tag_committed
    → decode_state (tag_committed + index % tag_committed) ≡ ok index
unfolding decode_state
decode_state-committed index h = ground (arith, h)

state_of-slot :
    (r : SlotRegistry) (id v : ℕ)
    → state_of r id ≡ some v
    → (slot : Slot) × (get_elem? r.arena (index_of id) ≡ some slot) × (slot.state ≡ v)
unfolding state_of
state_of-slot r id v e = elim (Option-cases (get_elem? r.arena (index_of id))) [
  | inl none_there ↦ ground (arith, e, none_there)
  | inr (s, there) ↦ (s, there, ground (arith, e, there))
]

slot-state_of :
    (r : SlotRegistry) (id : ℕ) (slot : Slot)
    → get_elem? r.arena (index_of id) ≡ some slot
    → state_of r id ≡ some slot.state
unfolding state_of
slot-state_of r id slot e = rw (state_of, e) refl

-- A release ends the wait of whoever holds the slot: it looks at the index of its identifier alone,
-- so the identifier of an earlier lease makes the current owner of a pending slot read that the
-- node is no leader.
pub release-ends_current_lease :
    (r : SlotRegistry) (old id : ℕ)
    → index_of old ≡ index_of id
    → state_of r id ≡ some slot_pending
    → (v : ℕ) × (state_of (release r old) id ≡ some v) × (decode_state v ≡ err (not_leader none))
unfolding release decode_state
release-ends_current_lease r old id same pending =
    let (slot, there, state) = state_of-slot r id slot_pending pending in
    let at : get_elem? r.arena (index_of old) ≡ some slot = rw same there in
    let ended =
      on_slot-writes r (index_of old)
        (λ s. if s.state == slot_pending then record s { state = tag_not_leader } else s) slot at in
    (
      tag_not_leader,
      slot-state_of (release r old) id (record slot { state = tag_not_leader })
          (subst
            (λ i. get_elem? (release r old).arena i ≡ some (record slot { state = tag_not_leader }))
            same (ended ∙ rw state refl)),
      refl,
    )

-- What a lease that gave out `id` left of `r`.
pub record IsLeased (r : SlotRegistry) (id : ℕ) (m : SlotRegistry) : Type 0 where
  pub before : Slot
  pub was_there : get_elem? r.arena (index_of id) ≡ some before
  pub was_free : before.state ≢ slot_pending
  pub now_there : get_elem? m.arena (index_of id) ≡ some (take_slot before)
  pub is_next : generation_of id ≡ (before.generation + 1) % 2 ^ 32

Found-IsLeased :
    (r m : SlotRegistry) (id : ℕ) → length r.arena ≤ 2 ^ 32 → Found r (some id, m) → IsLeased r id m
unfolding lease_at
Found-IsLeased r m id cap (idx, slot, free, same) =
    let (there, not_pending) = free_at-free r idx slot free in
    let bound = get_elem?-bound r.arena idx slot there in
    let given : id ≡ slot_id idx ((slot.generation + 1) % 2 ^ 32) = ap (λ p. p.0) same in
    let (index, generation) =
      slot_id-halves idx ((slot.generation + 1) % 2 ^ 32) (omega (arith, cap, bound))
        (omega arith) in
    let at : index_of id ≡ idx = rw given index in
    let after : m ≡ record r { arena = set r.arena idx (take_slot slot) } = ap (λ p. p.1) same in
    record {
      before = slot;
      was_there = rw at there;
      was_free = not_pending;
      now_there = rw (at, after) (get_elem?-set_self r.arena idx (take_slot slot) bound);
      is_next = rw given generation;
    }

lease-IsLeased :
    (r : SlotRegistry) (id : ℕ)
    → length r.arena ≤ 2 ^ 32
    → (lease r).0 ≡ some id
    → IsLeased r id (lease r).1
unfolding lease
lease-IsLeased r id cap e =
    let started : SlotRegistry = record r { cursor = (r.cursor + 1) % 2 ^ 64 } in
    let found : Found started ((lease r).0, (lease r).1) =
      probe-Found started r.cursor 0 (length r.arena) in
    let leased =
      Found-IsLeased started (lease r).1 id cap
        (subst (λ o. Found started (o, (lease r).1)) e found) in
    record {
      before = leased.before;
      was_there = leased.was_there;
      was_free = leased.was_free;
      now_there = leased.now_there;
      is_next = leased.is_next;
    }

taken-is_current :
    (id : ℕ) (s : Slot)
    → generation_of id ≡ (s.generation + 1) % 2 ^ 32
    → is_current id (take_slot s) ≡ true
unfolding is_current take_slot
taken-is_current id s e = ground (arith, e)

taken-is_stale :
    (old id : ℕ) (s : Slot)
    → generation_of id ≡ (s.generation + 1) % 2 ^ 32
    → generation_of old ≢ generation_of id
    → is_current old (take_slot s) ≡ false
unfolding is_current take_slot
taken-is_stale old id s e other = ground (arith, e, other)

notify_committed-state :
    (r : SlotRegistry) (id index : ℕ) (slot : Slot)
    → get_elem? r.arena (index_of id) ≡ some slot
    → is_current id slot ≡ true
    → state_of (notify_committed r id index) id ≡ some (tag_committed + index % tag_committed)
unfolding notify_committed store_committed
notify_committed-state r id index slot there current =
    slot-state_of (notify_committed r id index) id (store_committed index slot)
      (on_slot-writes r (index_of id) _ slot there ∙ rw current refl)

notify-stale :
    (r : SlotRegistry) (id index : ℕ) (slot : Slot)
    → get_elem? r.arena (index_of id) ≡ some slot
    → is_current id slot ≡ false
    → (notify_committed r id index ≡ r) × (notify_error r id ≡ r)
unfolding notify_committed notify_error
notify-stale r id index slot there stale = (
  on_slot-keeps r (index_of id) _ slot there (rw stale refl),
  on_slot-keeps r (index_of id) _ slot there (rw stale refl),
)

-- In a registry of at most 2^32 slots, a lease gives out a slot that was free, and which is pending
-- afterwards. A commit that is notified under its identifier is read by its owner as the index, and
-- one that is notified, or an error that is, under an identifier of the slot from another
-- generation changes nothing.
pub lease-delivers :
    (r : SlotRegistry) (id index old : ℕ)
    → length r.arena ≤ 2 ^ 32
    → (lease r).0 ≡ some id
    → index < tag_committed
    → index_of old ≡ index_of id
    → generation_of old ≢ generation_of id
    → (state_of r id ≢ some slot_pending)
      × (state_of (lease r).1 id ≡ some slot_pending)
      × ((v : ℕ) × (state_of (notify_committed (lease r).1 id index) id ≡ some v)
          × (v ≢ slot_pending)
          × (decode_state v ≡ ok index))
      × (notify_committed (lease r).1 old index ≡ (lease r).1)
      × (notify_error (lease r).1 old ≡ (lease r).1)
unfolding take_slot
lease-delivers r id index old cap e small same other =
    let leased = lease-IsLeased r id cap e in
    let slot = take_slot leased.before in
    let dropped =
      notify-stale (lease r).1 old index slot (rw same leased.now_there)
        (taken-is_stale old id leased.before leased.is_next other) in
    (
      λ p. leased.was_free (ground (arith, p, slot-state_of r id leased.before leased.was_there)),
      slot-state_of (lease r).1 id slot leased.now_there,
      (
        tag_committed + index % tag_committed,
        notify_committed-state (lease r).1 id index slot leased.now_there
            (taken-is_current id leased.before leased.is_next),
        omega arith,
        decode_state-committed index small,
      ),
      dropped.0,
      dropped.1,
    )

-- ===== src/Arena/Slots.antt =====
-- What the writes of the arena do to the terms and the indexes that its slots hold.
use arbitro_raft.Base.{
  ℕ, zero, suc, ◌+◌, ◌-◌, ◌%◌, ◌≤◌, ◌<◌, ◌≡◌, refl, sym, ◌∙◌, ◌≢◌, List, [], ◌∷◌, Option, some,
  none, arith, ◌⊎◌, inl, inr, ap, length, get_elem?, set, length-set, get_elem?-set_ne,
  Option-cases, get_elem?-set_self, ◌==◌, ==_refl, if◌then◌else◌,
}
use native.Mathlib.Nat.{mod-eq_of_lt, mod-eq-sub-mod, mod-add-mod}
use native.Mathlib.Decide.{dec_lt, ℕ_discrete}
use arbitro_raft.Arena.{LogMetadataSlot, LogMetadataArena, bump_slot, bump_from, push_slot, evict}

-- The term and the index in a slot, without its generation.
abbrev pub content : Option LogMetadataSlot → Option (ℕ × ℕ)
content none = none
content (some s) = some (s.term, s.index)

abbrev pub content_at : List LogMetadataSlot → ℕ → Option (ℕ × ℕ)
content_at slots i = content (get_elem? slots i)

-- A sum of two places is reduced once at most.
ring_sum : (x m : ℕ) → x < m + m → ((x < m) × (x % m ≡ x)) ⊎ ((m ≤ x) × (x % m + m ≡ x))
ring_sum x m h = elim (dec_lt x m) [
  | yes near ↦ inl (near, mod-eq_of_lt near)
  | no far ↦ inr (
    omega arith,
    rw (mod-eq-sub-mod {n = x} {m = m} (omega arith))
        (rw (mod-eq_of_lt {n = x - m} {m = m} (omega arith)) (omega arith)),
  )
]

pub ring_place-lt : (h i m : ℕ) → h < m → (h + i) % m < m
ring_place-lt h i m hh = omega arith

pub ring_place-injective : (h i j m : ℕ) → h < m → i < m → j < m → i ≢ j → (h + i) % m ≢ (h + j) % m
ring_place-injective h i j m hh hi hj n e =
    n (omega (arith, ring_sum (h + i) m (omega arith), ring_sum (h + j) m (omega arith)))

-- When the head moves one place on, each entry stands one place nearer to it.
pub ring_place-suc : (h i m : ℕ) → ((h + 1) % m + i) % m ≡ (h + suc i) % m
ring_place-suc h i m = mod-add-mod (h + 1) m i ∙ ap (λ x. x % m) (omega arith)

pub length-bump_slot :
    (slots : List LogMetadataSlot) (i : ℕ) → length (bump_slot slots i) ≡ length slots
unfolding bump_slot
length-bump_slot slots i = elim (Option-cases (get_elem? slots i)) [
  | inl e ↦ rw (e, bump_slot)
  | inr (s, e) ↦ rw (e, bump_slot) (length-set slots i _)
]

pub length-bump_from :
    (slots : List LogMetadataSlot) (h cap first n : ℕ)
    → length (bump_from slots h cap first n) ≡ length slots
unfolding bump_from
length-bump_from slots h cap first zero = refl
length-bump_from slots h cap first (suc n) =
    length-bump_from (bump_slot slots ((h + first) % cap)) h cap (first + 1) n
    ∙ length-bump_slot slots ((h + first) % cap)

content_at-set_self :
    (slots : List LogMetadataSlot) (i : ℕ) (s t : LogMetadataSlot)
    → get_elem? slots i ≡ some s
    → t.term ≡ s.term
    → t.index ≡ s.index
    → content_at (set slots i t) i ≡ content_at slots i
content_at-set_self [] i s t e p q = cc
content_at-set_self (x ∷ xs) zero s t e p q = ground arith
content_at-set_self (x ∷ xs) (suc i) s t e p q = content_at-set_self xs i s t e p q

-- A bump of the generation leaves every term and index.
pub content_at-bump_slot :
    (slots : List LogMetadataSlot) (i j : ℕ) → content_at (bump_slot slots i) j ≡ content_at slots j
unfolding bump_slot
content_at-bump_slot slots i j = elim (Option-cases (get_elem? slots i)) [
  | inl e ↦ rw (e, bump_slot)
  | inr (s, e) ↦ elim (ℕ_discrete i j) [
    | yes p ↦ rw (e, bump_slot) (rw (← p) (content_at-set_self slots i s _ e refl refl))
    | no n ↦ rw (e, bump_slot) (ap content (get_elem?-set_ne slots i j _ n))
  ]
]

pub content_at-bump_from :
    (slots : List LogMetadataSlot) (h cap first n j : ℕ)
    → content_at (bump_from slots h cap first n) j ≡ content_at slots j
unfolding bump_from
content_at-bump_from slots h cap first zero j = refl
content_at-bump_from slots h cap first (suc n) j =
    content_at-bump_from (bump_slot slots ((h + first) % cap)) h cap (first + 1) n j
    ∙ content_at-bump_slot slots ((h + first) % cap) j

-- What the slot of the entry `i` places behind the head holds.
abbrev pub slot_content : LogMetadataArena → ℕ → Option (ℕ × ℕ)
slot_content a i = content_at a.slots ((a.head + i) % length a.slots)

content_at-set :
    (slots : List LogMetadataSlot) (i j : ℕ) (s : LogMetadataSlot)
    → i < length slots
    → content_at (set slots i s) j ≡ (if i == j then some (s.term, s.index) else content_at slots j)
content_at-set slots i j s h = elim (ℕ_discrete i j) [
  | yes p ↦ rw (← p, ==_refl i) (ap content (get_elem?-set_self slots i s h))
  | no n ↦ ap content (get_elem?-set_ne slots i j s n) ∙ ground arith
]

module _ (a : LogMetadataArena) where
  pub slot_content-push_slot :
      (index term i : ℕ)
      → a.head < length a.slots
      → a.len < length a.slots
      → i ≤ a.len
      → slot_content (push_slot a index term) i
        ≡ (if i == a.len then some (term, index) else slot_content a i)
  unfolding push_slot
  slot_content-push_slot index term i hh hl hi =
      let m = length a.slots in
      let s : LogMetadataSlot = record { term = term; index = index; generation = a.generation } in
      let p = (a.head + a.len) % m in
      rw (length-set a.slots p s) (
        content_at-set a.slots p ((a.head + i) % m) s (ring_place-lt a.head a.len m hh)
        ∙ elim (ℕ_discrete i a.len) [
          | yes e ↦ rw (e, ==_refl p, ==_refl a.len)
          | no n ↦
              ground
                (arith, ring_place-injective a.head a.len i m hh hl (omega arith) (λ e. n (sym e)))
        ])

  pub slot_content-evict : (i : ℕ) → slot_content (evict a) i ≡ slot_content a (suc i)
  unfolding evict
  slot_content-evict i =
      rw (length-bump_slot a.slots a.head, content_at-bump_slot a.slots a.head)
        (ap (content_at a.slots) (ring_place-suc a.head i (length a.slots)))

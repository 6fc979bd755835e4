-- ===== src/Arena/Laws.antt =====
-- The blocks of `append` and `truncate_suffix`, one by one: what each makes of a valid arena.
use arbitro_raft.Base.{
  ℕ, suc, ◌+◌, ◌-◌, ◌%◌, ◌≤◌, ◌<◌, ◌≡◌, refl, ap, ◌∙◌, true, some, none, arith, ltb, leb, ◌==◌,
  if◌then◌else◌, inl, inr, length, u64_max, saturating_add, Bool-cases, length-set,
}
use native.Mathlib.Decide.{ℕ_discrete}
use arbitro_raft.Arena.{
  LogMetadataArena, get_term, clear, evict, push_slot, reseat, truncate_suffix, shorten,
}
use arbitro_raft.Arena.Slots.{
  slot_content, slot_content-push_slot, slot_content-evict, length-bump_slot, length-bump_from,
  content_at-bump_from,
}
use arbitro_raft.Arena.Lookup.{IsValid, cached, get_term_lem}

module _ (a : LogMetadataArena) (v : IsValid a) where
  pub clear-IsValid : (b : ℕ) → b ≤ u64_max → IsValid (clear a b)
  unfolding clear
  clear-IsValid b h = record {
    head_lt = omega (arith, v.head_lt, length-bump_from a.slots a.head (length a.slots) 0 a.len);
    len_le = omega arith;
    in_range = omega arith;
    holds = λ i h. absurd (omega arith);
  }

  pub get_term-clear : (b j : ℕ) → b ≤ u64_max → get_term (clear a b) j ≡ none
  unfolding cached clear
  get_term-clear b j h = get_term_lem (clear a b) j (clear-IsValid b h) ∙ ground arith

  pub push_slot-IsValid :
      (index term : ℕ)
      → a.len < length a.slots
      → index ≡ a.base_index + a.len
      → index < u64_max
      → IsValid (push_slot a index term)
  unfolding push_slot
  push_slot-IsValid index term room e top = record {
    head_lt = omega (arith, v.head_lt, same);
    len_le = omega (arith, same);
    in_range = omega arith;
    holds = λ i h. elim (ℕ_discrete i a.len) [
      | yes p ↦ (term, slot i (omega arith) ∙ ground arith)
      | no n ↦ let (t, q) = v.holds i (omega arith) in (t, slot i (omega arith) ∙ ground (arith, q))
    ];
  }
    where
      same : length (push_slot a index term).slots ≡ length a.slots
      same = length-set a.slots _ _

      slot :
          (i : ℕ)
          → i ≤ a.len
          → slot_content (push_slot a index term) i
            ≡ (if i == a.len then some (term, index) else slot_content a i)
      slot i h = slot_content-push_slot a index term i v.head_lt room h

  pub get_term-push_slot :
      (index term j : ℕ)
      → a.len < length a.slots
      → index ≡ a.base_index + a.len
      → index < u64_max
      → get_term (push_slot a index term) j ≡ (if j == index then some term else get_term a j)
  unfolding cached push_slot
  get_term-push_slot index term j room e top =
      get_term_lem (push_slot a index term) j (push_slot-IsValid index term room e top)
      ∙ ground (
        arith,
        get_term_lem a j v,
        slot_content-push_slot a index term (j - a.base_index) v.head_lt room,
      )

  pub evict-IsValid : 0 < a.len → IsValid (evict a)
  unfolding evict
  evict-IsValid h = record {
    head_lt = omega (arith, v.head_lt, same);
    len_le = omega (arith, same, v.len_le);
    in_range = omega (arith, v.in_range);
    holds = λ i h'.
        let (t, q) = v.holds (suc i) (omega arith) in
        (t, slot_content-evict a i ∙ q ∙ ap (λ x. some (t, x)) (omega (arith, v.in_range)));
  }
    where
      same : length (evict a).slots ≡ length a.slots
      same = length-bump_slot a.slots a.head

  pub get_term-evict :
      (j : ℕ)
      → 0 < a.len
      → get_term (evict a) j ≡ (if j == a.base_index then none else get_term a j)
  unfolding cached evict
  get_term-evict j h =
      get_term_lem (evict a) j (evict-IsValid h)
      ∙ ground (
        arith,
        v.in_range,
        get_term_lem a j v,
        slot_content-evict a (j - saturating_add a.base_index 1),
      )

  same_length-shorten : (from : ℕ) → length (shorten a from).slots ≡ length a.slots
  unfolding shorten
  same_length-shorten from =
      length-bump_from a.slots a.head (length a.slots) (from - a.base_index)
        (a.len - (from - a.base_index))

  slot_content-shorten : (from i : ℕ) → slot_content (shorten a from) i ≡ slot_content a i
  unfolding shorten
  slot_content-shorten from i =
      let k = from - a.base_index in
      let m = length a.slots in
      rw (length-bump_from a.slots a.head m k (a.len - k))
        (content_at-bump_from a.slots a.head m k (a.len - k) ((a.head + i) % m))

  shorten-IsValid : (from : ℕ) → from < a.base_index + a.len → IsValid (shorten a from)
  unfolding shorten
  shorten-IsValid from h = record {
    head_lt = omega (arith, v.head_lt, same_length-shorten from);
    len_le = omega (arith, same_length-shorten from, v.len_le);
    in_range = omega (arith, v.in_range);
    holds = λ i h'. let (t, q) = v.holds i (omega arith) in (t, slot_content-shorten from i ∙ q);
  }

  get_term-shorten :
      (from j : ℕ)
      → a.base_index < from
      → from < a.base_index + a.len
      → get_term (shorten a from) j ≡ (if ltb j from then get_term a j else none)
  unfolding cached shorten
  get_term-shorten from j lo hi =
      get_term_lem (shorten a from) j (shorten-IsValid from hi)
      ∙ ground (arith, get_term_lem a j v, slot_content-shorten from (j - a.base_index))

-- A cut keeps the arena valid and what lies below `from`, and forgets the rest.
abbrev pub Cut : LogMetadataArena → ℕ → LogMetadataArena → Type 0
Cut a from b = IsValid b × ((j : ℕ) → get_term b j ≡ (if ltb j from then get_term a j else none))

module _ (a : LogMetadataArena) (v : IsValid a) where
  -- On a valid arena a cut leaves a valid arena that answers as before below the cut and nothing
  -- from it on.
  pub truncate_suffix-Cut : (from : ℕ) → from ≤ u64_max → Cut a from (truncate_suffix a from)
  unfolding truncate_suffix cached
  truncate_suffix-Cut from h = elim (Bool-cases (a.len == 0)) [
    | inl e ↦ rw (e, truncate_suffix) (v, λ j. ground (arith, get_term_lem a j v))
    | inr n ↦ elim (Bool-cases (leb from a.base_index)) [
      | inl lo ↦
          rw (n, lo, truncate_suffix)
            (
              clear-IsValid a v from h,
              λ j. get_term-clear a v from j h ∙ ground (arith, get_term_lem a j v),
            )
      | inr lo ↦ elim (Bool-cases (ltb from (saturating_add a.base_index a.len))) [
        | inl inside ↦
            rw (n, lo, inside, truncate_suffix)
              (
                shorten-IsValid a v from (ground (arith, v.in_range)),
                λ j. get_term-shorten a v from j (ground arith) (ground (arith, v.in_range)),
              )
        | inr beyond ↦
            rw (n, lo, beyond, truncate_suffix)
              (v, λ j. ground (arith, get_term_lem a j v, v.in_range))
      ]
    ]
  ]

-- An arena that `index` continues: valid, ending just before `index`, and with every answer and
-- the window of `a` if `index` continued `a` already, else with no answer.
abbrev Seated : LogMetadataArena → ℕ → LogMetadataArena → Type 0
Seated a index b =
    IsValid b
    × (index ≡ b.base_index + b.len)
    × ((j : ℕ) → get_term b j ≡ (if index == a.base_index + a.len then get_term a j else none))
    × (index ≡ a.base_index + a.len → (b.base_index ≡ a.base_index) × (b.len ≡ a.len))
    × (length b.slots ≡ length a.slots)

module _ (a : LogMetadataArena) (v : IsValid a) where
  restart : (index : ℕ) → a.len ≡ 0 → index ≤ u64_max → IsValid (record a { base_index = index })
  restart index e h = record {
    head_lt = v.head_lt;
    len_le = v.len_le;
    in_range = omega arith;
    holds = λ i h'. absurd (omega arith);
  }

  pub reseat-Seated : (index : ℕ) → index < u64_max → Seated a index (reseat a index)
  unfolding reseat cached clear
  reseat-Seated index h = elim (Bool-cases (a.len == 0)) [
    | inl e ↦
        let a' : LogMetadataArena = record a { base_index = index } in
        let v' = restart index (ground arith) (omega arith) in
        let same : (index == saturating_add index a.len) ≡ true = ground arith in
        rw (e, same, reseat)
          (
            v',
            ground arith,
            λ j. ground (arith, get_term_lem a j v, get_term_lem a' j v'),
            ground arith,
            refl,
          )
    | inr n ↦ elim (Bool-cases (index == saturating_add a.base_index a.len)) [
      | inl c ↦
          rw (n, c, reseat)
            (
              v,
              ground (arith, v.in_range),
              λ j. ground (arith, v.in_range),
              λ q. ground arith,
              refl,
            )
      | inr c ↦
          rw (n, c, reseat)
            (
              clear-IsValid a v index (omega arith),
              omega arith,
              λ j. ground (arith, v.in_range, get_term-clear a v index j (omega arith)),
              λ q. ground (arith, v.in_range),
              length-bump_from a.slots a.head (length a.slots) 0 a.len,
            )
    ]
  ]

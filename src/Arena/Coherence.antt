-- ===== src/Arena/Coherence.antt =====
-- The arena as a cache of a log: whatever was appended and cut, it never answers a stale term.
use arbitro_raft.Base.{
  ℕ, ◌<◌, ◌≤◌, ◌≡◌, List, [], ◌∷◌, Option, some, none, arith, ltb, ◌==◌, if◌then◌else◌, u64_max,
}
use arbitro_raft.Arena.{LogMetadataArena, new, get_term, append, truncate_suffix, clear}
use arbitro_raft.Arena.Lookup.{IsValid, new-IsValid}
use arbitro_raft.Arena.Laws.{truncate_suffix-Cut, clear-IsValid, get_term-clear}
use arbitro_raft.Arena.Append.{append-Appended}

-- The calls that the node makes of the arena.
pub data ArenaCall : Type 0 where
  appends : ℕ → ℕ → ArenaCall
  truncates : ℕ → ArenaCall
  clears : ℕ → ArenaCall

abbrev pub arena_step : LogMetadataArena → ArenaCall → LogMetadataArena
arena_step a (appends index term) = append a index term
arena_step a (truncates from) = truncate_suffix a from
arena_step a (clears base) = clear a base

-- The terms of the log itself, as a function of the index: a write at one index, and a cut.
abbrev pub log_step : (ℕ → Option ℕ) → ArenaCall → ℕ → Option ℕ
log_step l (appends index term) j = if j == index then some term else l j
log_step l (truncates from) j = if ltb j from then l j else none
log_step l (clears base) j = l j

-- The arguments are log indexes below `u64::MAX`.
abbrev pub InRange : ArenaCall → Type 0
InRange (appends index term) = index < u64_max
InRange (truncates from) = from ≤ u64_max
InRange (clears base) = base ≤ u64_max

abbrev pub AllInRange : List ArenaCall → Type 0
AllInRange [] = Unit {0}
AllInRange (c ∷ cs) = InRange c × AllInRange cs

abbrev pub arena_run : LogMetadataArena → List ArenaCall → LogMetadataArena
arena_run a [] = a
arena_run a (c ∷ cs) = arena_run (arena_step a c) cs

abbrev pub log_run : (ℕ → Option ℕ) → List ArenaCall → ℕ → Option ℕ
log_run l [] = l
log_run l (c ∷ cs) = log_run (log_step l c) cs

-- A valid arena whose every answer is the log's.
abbrev pub Coherent : LogMetadataArena → (ℕ → Option ℕ) → Type 0
Coherent a l = IsValid a × ((j t : ℕ) → get_term a j ≡ some t → l j ≡ some t)

pub step-Coherent :
    (a : LogMetadataArena) (l : ℕ → Option ℕ) (c : ArenaCall)
    → InRange c
    → Coherent a l
    → Coherent (arena_step a c) (log_step l c)
step-Coherent a l (appends index term) h (v, g) =
    let (v', e) = append-Appended a index term v h in (v', λ j t q. ground (arith, e j, g j t))
step-Coherent a l (truncates from) h (v, g) =
    let (v', e) = truncate_suffix-Cut a v from h in (v', λ j t q. ground (arith, e j, g j t))
step-Coherent a l (clears base) h (v, g) =
    (clear-IsValid a v base h, λ j t q. ground (arith, get_term-clear a v base j h))

pub run-Coherent :
    (cs : List ArenaCall) (a : LogMetadataArena) (l : ℕ → Option ℕ)
    → AllInRange cs
    → Coherent a l
    → Coherent (arena_run a cs) (log_run l cs)
run-Coherent [] a l h q = q
run-Coherent (c ∷ cs) a l h q =
    run-Coherent cs (arena_step a c) (log_step l c) h.1 (step-Coherent a l c h.0 q)

-- An arena of positive capacity that starts empty and takes any calls in range answers, for every
-- index, either nothing or the term that the log holds there after the same calls.
pub get_term-run_coherent :
    (capacity : ℕ) (cs : List ArenaCall) (j t : ℕ)
    → 0 < capacity
    → AllInRange cs
    → get_term (arena_run (new capacity) cs) j ≡ some t
    → log_run (λ _. none) cs j ≡ some t
unfolding get_term new
get_term-run_coherent capacity cs j t h r q =
    (run-Coherent cs (new capacity) (λ _. none) r (new-IsValid capacity h, λ i s e. ground arith)).1
      j t q

-- ===== src/Witness/Log.antt =====
-- The theorems on the arena of terms and on the peer map, at small ones.
use arbitro_raft.Base.{◌≡◌, refl, List, [], ◌∷◌, some, none, arith}
use arbitro_raft.Arena.{
  push_slot, make_room, reseat, shorten, LogMetadataArena, new, append, truncate_suffix, get_term,
}
use arbitro_raft.Arena.Lookup.{new-IsValid}
use arbitro_raft.Arena.Append.{append-Appended, Appended}
use arbitro_raft.Arena.Laws.{truncate_suffix-Cut, Cut}
use arbitro_raft.Arena.Coherence.{appends, truncates, ArenaCall, get_term-run_coherent, log_run}

abbrev two_slots : LogMetadataArena
two_slots = append (new 2) 7 3

append-Appended_example : Appended two_slots 8 4 (append two_slots 8 4)
append-Appended_example =
    append-Appended two_slots 8 4
      (append-Appended (new 2) 7 3 (new-IsValid 2 (omega arith)) (omega arith)).0 (omega arith)

truncate_suffix-Cut_example : Cut two_slots 7 (truncate_suffix two_slots 7)
truncate_suffix-Cut_example =
    truncate_suffix-Cut two_slots
      (append-Appended (new 2) 7 3 (new-IsValid 2 (omega arith)) (omega arith)).0 7 (omega arith)

-- A full ring that drops its oldest entry, and a cut.
abbrev calls : List ArenaCall
calls = appends 1 1 ∷ appends 2 1 ∷ appends 3 2 ∷ truncates 3 ∷ appends 3 4 ∷ []

get_term-run_coherent_example : log_run (λ _. none) calls 3 ≡ some 4
unfolding get_term append truncate_suffix new push_slot make_room reseat shorten
get_term-run_coherent_example =
    get_term-run_coherent 2 calls 3 4 (omega arith)
      (omega arith, (omega arith, (omega arith, (omega arith, (omega arith, tt))))) refl

-- ===== src/Membership.antt =====
-- src/api/node/membership.rs: the control entries of the log and their bytes.
pub mod Codec
use arbitro_raft.Base.{
  ℕ, zero, suc, ◌+◌, ◌*◌, Bool, true, false, ◌&&◌, List, [], ◌∷◌, ◌++◌, Option, none, some, ltb,
  ◌==◌, if◌then◌else◌, length,
}
use arbitro_raft.Wire.Bytes.{to_le_bytes, read_le}

abbrev pub config_change_magic : ℕ
config_change_magic = 0xc0

abbrev pub config_change_version : ℕ
config_change_version = 1

abbrev pub noop_discriminant : ℕ
noop_discriminant = 0x7f

abbrev pub header_len : ℕ
header_len = 12

pub data ConfigChangePhase : Type 0 where
  joint final add_learner remove_learner : ConfigChangePhase

pub record ConfigChangeEntry : Type 0 where
  pub phase : ConfigChangePhase
  pub old_peers : List ℕ
  pub new_peers : List ℕ

abbrev pub noop_entry : List ℕ
noop_entry = config_change_magic ∷ config_change_version ∷ noop_discriminant ∷ 0 ∷ []

abbrev bytes_eq : List ℕ → List ℕ → Bool
bytes_eq [] [] = true
bytes_eq (x ∷ xs) (y ∷ ys) = (x == y) && bytes_eq xs ys
bytes_eq _ _ = false

unfoldable pub is_noop_entry : List ℕ → Bool
is_noop_entry payload = bytes_eq payload noop_entry

abbrev pub phase_code : ConfigChangePhase → ℕ
phase_code joint = 1
phase_code final = 2
phase_code add_learner = 3
phase_code remove_learner = 4

abbrev pub phase_of : ℕ → Option ConfigChangePhase
phase_of b =
    if b == 1
    then some joint
    else if b == 2
    then some final
    else if b == 3
    then some add_learner
    else if b == 4
    then some remove_learner
    else none

unfoldable pub ids_bytes : List ℕ → List ℕ
ids_bytes [] = []
ids_bytes (p ∷ ps) = to_le_bytes 8 p ++ ids_bytes ps

unfoldable pub encode : ConfigChangeEntry → List ℕ
encode e =
    config_change_magic
    ∷ config_change_version
    ∷ phase_code e.phase
    ∷ 0
    ∷ (to_le_bytes 4 (length e.old_peers)
        ++ (to_le_bytes 4 (length e.new_peers) ++ (ids_bytes e.old_peers ++ ids_bytes e.new_peers)))

-- The loop `for _ in 0..len` over `cursor`.
unfoldable pub read_ids : ℕ → List ℕ → Option (List ℕ × List ℕ)
read_ids zero bytes = some ([], bytes)
read_ids (suc n) bytes = elim (read_le 8 bytes) [
  | none ↦ none
  | some (p, rest) ↦ elim (read_ids n rest) [
    | none ↦ none
    | some (ps, rest') ↦ some (p ∷ ps, rest')
  ]
]

-- The body behind the header: `total` bytes must be there, more are ignored.
unfoldable pub decode_peers : ConfigChangePhase → ℕ → ℕ → List ℕ → Option ConfigChangeEntry
decode_peers phase old_len new_len body =
    if ltb (length body) (old_len * 8 + new_len * 8) then none else (elim (read_ids old_len body) [
      | none ↦ none
      | some (olds, rest) ↦ elim (read_ids new_len rest) [
        | none ↦ none
        | some (news, _) ↦ some (record { phase = phase; old_peers = olds; new_peers = news })
      ]
    ])

-- The two lengths and the body, behind the first four bytes.
unfoldable pub decode_lengths : ConfigChangePhase → List ℕ → Option ConfigChangeEntry
decode_lengths phase bytes = elim (read_le 4 bytes) [
  | none ↦ none
  | some (old_len, rest) ↦ elim (read_le 4 rest) [
    | none ↦ none
    | some (new_len, body) ↦ decode_peers phase old_len new_len body
  ]
]

-- The fourth byte is padding and is not read.
unfoldable pub decode : List ℕ → Option ConfigChangeEntry
decode (b₀ ∷ b₁ ∷ b₂ ∷ b₃ ∷ bytes) =
    if ltb (length bytes + 4) header_len
    then none
    else if b₀ == config_change_magic
    then (if b₁ == config_change_version
        then (elim (phase_of b₂) [ none ↦ none | some phase ↦ decode_lengths phase bytes ])
        else none)
    else none
decode _ = none

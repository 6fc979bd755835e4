-- ===== src/Wire/Fields.antt =====
-- The fields of a fixed header, each a little-endian integer of some width, written one after the
-- other and read back: `as_bytes` and `Ref::from_prefix` on the header structs.
use arbitro_raft.Base.{
  ℕ, ◌^◌, ◌≡◌, refl, Bool, true, ◌&&◌, List, [], ◌∷◌, ◌++◌, Option, none, some, ltb, arith,
}
use mathlib.Core.List.{append_assoc}
use arbitro_raft.Wire.Bytes.{to_le_bytes, read_le, read_le-to_le_bytes}

-- A field is its width in bytes and its value.
unfoldable pub fields_bytes : List (ℕ × ℕ) → List ℕ
fields_bytes [] = []
fields_bytes ((width, value) ∷ fields) = to_le_bytes width value ++ fields_bytes fields

-- The values of fields of the given widths at the front of the bytes, and what follows them.
unfoldable pub read_fields : List ℕ → List ℕ → Option (List ℕ × List ℕ)
read_fields [] bytes = some ([], bytes)
read_fields (width ∷ widths) bytes = elim (read_le width bytes) [
  | none ↦ none
  | some (value, rest) ↦ elim (read_fields widths rest) [
    | none ↦ none
    | some (values, behind) ↦ some (value ∷ values, behind)
  ]
]

-- Every value fits its width.
abbrev pub fields_fit : List (ℕ × ℕ) → Bool
fields_fit [] = true
fields_fit ((width, value) ∷ fields) = ltb value (256 ^ width) && fields_fit fields

abbrev pub widths_of : List (ℕ × ℕ) → List ℕ
widths_of [] = []
widths_of ((width, value) ∷ fields) = width ∷ widths_of fields

abbrev pub values_of : List (ℕ × ℕ) → List ℕ
values_of [] = []
values_of ((width, value) ∷ fields) = value ∷ values_of fields

pub read_fields-fields_bytes :
    (fields : List (ℕ × ℕ)) (rest : List ℕ)
    → fields_fit fields ≡ true
    → read_fields (widths_of fields) (fields_bytes fields ++ rest) ≡ some (values_of fields, rest)
unfolding read_fields fields_bytes
read_fields-fields_bytes [] rest h = refl
read_fields-fields_bytes ((width, value) ∷ fields) rest h = ground (
  arith,
  append_assoc (to_le_bytes width value) (fields_bytes fields) rest,
  read_le-to_le_bytes width value (fields_bytes fields ++ rest),
  read_fields-fields_bytes fields rest,
)

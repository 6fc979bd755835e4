-- ===== src/Wire/Bytes.antt =====
-- Little-endian numbers: `to_le_bytes`, `from_le_bytes` and the wire integers of a byte string.
use native.Mathlib.Nat.{pow-suc}
use arbitro_raft.Base.{
  ℕ, zero, suc, ◌+◌, ◌*◌, ◌/◌, ◌%◌, ◌^◌, ◌<◌, ◌≡◌, refl, List, [], ◌∷◌, ◌++◌, Option, none, some,
  length, arith,
}

-- `to_le_bytes` of an integer of `width` bytes.
unfoldable pub to_le_bytes : ℕ → ℕ → List ℕ
to_le_bytes zero n = []
to_le_bytes (suc width) n = (n % 256) ∷ to_le_bytes width (n / 256)

-- A little-endian integer of `width` bytes at the front of a byte string, and what follows it.
unfoldable pub read_le : ℕ → List ℕ → Option (ℕ × List ℕ)
read_le zero bytes = some (0, bytes)
read_le (suc width) [] = none
read_le (suc width) (b ∷ bytes) = elim (read_le width bytes) [
  | none ↦ none
  | some (n, rest) ↦ some (b + 256 * n, rest)
]

pub read_le-to_le_bytes :
    (width n : ℕ) (rest : List ℕ)
    → n < 256 ^ width
    → read_le width (to_le_bytes width n ++ rest) ≡ some (n, rest)
unfolding to_le_bytes read_le
read_le-to_le_bytes zero n rest h = ground arith
read_le-to_le_bytes (suc width) n rest h =
    let high : n / 256 < 256 ^ width = omega (arith, pow-suc 256 width) in
    ground (arith, read_le-to_le_bytes width (n / 256) rest high)

pub length-to_le_bytes : (width n : ℕ) → length (to_le_bytes width n) ≡ width
unfolding to_le_bytes
length-to_le_bytes zero n = refl
length-to_le_bytes (suc width) n = omega (arith, length-to_le_bytes width (n / 256))

-- ===== src/Wire/Entries.antt =====
-- The entries of an append frame: `EntryHeader` of src/protocol/codec/wire.rs, the entry loop of
-- src/protocol/codec/encode/contiguous.rs and `AppendEntriesEntryIter` of src/protocol/message.rs.
use arbitro_raft.Base.{
  ℕ, zero, suc, ◌^◌, ◌<◌, ◌≡◌, refl, ap, List, [], ◌∷◌, ◌++◌, Option, none, some, ltb,
  if◌then◌else◌, length, take, drop, length-append, arith,
}
use mathlib.Core.List.{append_assoc}
use arbitro_raft.Types.{LogEntry}
use arbitro_raft.Wire.Bytes.{to_le_bytes, read_le, read_le-to_le_bytes}

pub record EntryHeader : Type 0 where
  pub term : ℕ
  pub index : ℕ
  pub payload_len : ℕ
  pub pad : ℕ

-- The 24 bytes of a header: two words of eight bytes and two of four.
unfoldable pub header_bytes : EntryHeader → List ℕ
header_bytes h =
    to_le_bytes 8 h.term
    ++ (to_le_bytes 8 h.index ++ (to_le_bytes 4 h.payload_len ++ to_le_bytes 4 h.pad))

-- `Ref::from_prefix`: the header at the front of the bytes, and the bytes behind it.
unfoldable pub read_header : List ℕ → Option (EntryHeader × List ℕ)
read_header bytes = elim (read_le 8 bytes) [
  | none ↦ none
  | some (term, r₁) ↦ elim (read_le 8 r₁) [
    | none ↦ none
    | some (index, r₂) ↦ elim (read_le 4 r₂) [
      | none ↦ none
      | some (len, r₃) ↦ elim (read_le 4 r₃) [
        | none ↦ none
        | some (pad, r₄) ↦
            some (record { term = term; index = index; payload_len = len; pad = pad }, r₄)
      ]
    ]
  ]
]

-- The items of the iterator: at most `count`, and none from the first malformed one on.
unfoldable pub entry_iter : List ℕ → ℕ → List LogEntry
entry_iter payload zero = []
entry_iter payload (suc remaining) = elim (read_header payload) [
  | none ↦ []
  | some (h, rest) ↦
      let others = entry_iter (drop h.payload_len rest) remaining in
      if ltb (length rest) h.payload_len
      then []
      else record { term = h.term; index = h.index; payload = take h.payload_len rest } ∷ others
]

-- One entry as the encoder writes it.
unfoldable pub entry_bytes : LogEntry → List ℕ
entry_bytes e =
    header_bytes
      (record { term = e.term; index = e.index; payload_len = length e.payload; pad = 0 })
    ++ e.payload

unfoldable pub entries_bytes : List LogEntry → List ℕ
unfolding entry_bytes
entries_bytes [] = []
entries_bytes (e ∷ es) = entry_bytes e ++ entries_bytes es

-- The fields fit their words.
pub record Fits (e : LogEntry) : Type 0 where
  pub term_fits : e.term < 256 ^ 8
  pub index_fits : e.index < 256 ^ 8
  pub payload_fits : length e.payload < 256 ^ 4

abbrev pub AllFit : List LogEntry → Type 0
AllFit [] = Unit {0}
AllFit (e ∷ es) = Fits e × AllFit es

pub take-length {ℓ} : {A : Type ℓ} (xs ys : List A) → take (length xs) (xs ++ ys) ≡ xs
take-length [] ys = refl
take-length (x ∷ xs) ys = ap (λ zs. x ∷ zs) (take-length xs ys)

pub drop-length {ℓ} : {A : Type ℓ} (xs ys : List A) → drop (length xs) (xs ++ ys) ≡ ys
drop-length [] ys = refl
drop-length (x ∷ xs) ys = drop-length xs ys

pub read_header-header_bytes :
    (h : EntryHeader) (rest : List ℕ)
    → h.term < 256 ^ 8
    → h.index < 256 ^ 8
    → h.payload_len < 256 ^ 4
    → h.pad < 256 ^ 4
    → read_header (header_bytes h ++ rest) ≡ some (h, rest)
unfolding read_header header_bytes
read_header-header_bytes h rest a b c d =
    rw (append_assoc, append_assoc, append_assoc)
      (rw (
        read_le-to_le_bytes 8 h.term _ a,
        read_le-to_le_bytes 8 h.index _ b,
        read_le-to_le_bytes 4 h.payload_len _ c,
        read_le-to_le_bytes 4 h.pad rest d,
        read_header,
      ))

-- Entries that fit their wire fields are read back as they were written.
pub entry_iter-entries_bytes :
    (es : List LogEntry) → AllFit es → entry_iter (entries_bytes es) (length es) ≡ es
unfolding entry_iter entries_bytes entry_bytes
entry_iter-entries_bytes [] f = refl
entry_iter-entries_bytes (e ∷ es) f =
    let h : EntryHeader = record {
      term = e.term;
      index = e.index;
      payload_len = length e.payload;
      pad = 0;
    } in
    let rest = entries_bytes es in
    let first =
      read_header-header_bytes h (e.payload ++ rest) f.0.term_fits f.0.index_fits f.0.payload_fits
        (omega arith) in
    rw (append_assoc, first, entry_iter)
      (rw (drop-length e.payload rest, take-length e.payload rest, entry_iter-entries_bytes es f.1)
        (ground (arith, length-append e.payload rest)))

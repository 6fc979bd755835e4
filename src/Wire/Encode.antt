-- ===== src/Wire/Encode.antt =====
-- src/protocol/codec/encode: a message as one contiguous frame.
use arbitro_raft.Base.{ℕ, ◌+◌, List, [], ◌∷◌, ◌++◌, ltb, if◌then◌else◌, length, u32_max}
use arbitro_raft.Types.{LogEntry}
use arbitro_raft.Error.{protocol, Result, ok, err}
use arbitro_raft.Wire.{
  RaftMessage, request_vote, request_vote_resp, pre_vote, pre_vote_resp, append_entries,
  append_entries_vectored, append_entries_seeded, append_entries_seeded_vectored,
  append_entries_resp, install_snapshot, install_snapshot_resp, timeout_now, custom,
  custom_response,
}
use arbitro_raft.Wire.Entries.{entries_bytes}
use arbitro_raft.Wire.Fields.{fields_bytes}
use arbitro_raft.Wire.Bodies.{
  Layout, vote_layout, vote_resp_layout, append_layout, append_resp_layout, install_layout,
  install_resp_layout, timeout_layout,
}

abbrev pub raft_magic : ℕ
raft_magic = 1380009556

abbrev pub raft_version : ℕ
raft_version = 1

unfoldable pub kind_of : RaftMessage → ℕ
kind_of (request_vote m) = 1
kind_of (request_vote_resp m) = 2
kind_of (pre_vote m) = 10
kind_of (pre_vote_resp m) = 11
kind_of (append_entries m payload) = 3
kind_of (append_entries_vectored m entries) = 3
kind_of (append_entries_resp m) = 4
kind_of (append_entries_seeded m headers payloads) = 9
kind_of (append_entries_seeded_vectored m headers payloads) = 9
kind_of (install_snapshot m payload) = 5
kind_of (install_snapshot_resp m) = 6
kind_of (timeout_now m) = 12
kind_of (custom payload) = 7
kind_of (custom_response payload) = 8

-- The lengths of entries and of payload slices, as the encoder adds them up.
unfoldable pub entries_len : List LogEntry → ℕ
entries_len [] = 0
entries_len (e ∷ es) = 24 + length e.payload + entries_len es

unfoldable pub slices_len : List (List ℕ) → ℕ
slices_len [] = 0
slices_len (p ∷ ps) = length p + slices_len ps

unfoldable pub body_total_len : RaftMessage → ℕ
unfolding entries_len slices_len
body_total_len (request_vote m) = 32
body_total_len (request_vote_resp m) = 16
body_total_len (pre_vote m) = 32
body_total_len (pre_vote_resp m) = 16
body_total_len (append_entries m payload) = 48 + length payload
body_total_len (append_entries_vectored m entries) = 48 + entries_len entries
body_total_len (append_entries_resp m) = 24
body_total_len (append_entries_seeded m headers payloads) = 48 + length headers + length payloads
body_total_len (append_entries_seeded_vectored m headers payloads) =
    48 + length headers + slices_len payloads
body_total_len (install_snapshot m payload) = 48 + length payload
body_total_len (install_snapshot_resp m) = 24
body_total_len (timeout_now m) = 16
body_total_len (custom payload) = length payload
body_total_len (custom_response payload) = length payload

unfoldable pub concat : List (List ℕ) → List ℕ
concat [] = []
concat (p ∷ ps) = p ++ concat ps

module _ {A : Type 0} where
  -- `as_bytes` of a fixed body.
  abbrev pub body_of : Layout A → A → List ℕ
  body_of layout m = fields_bytes (layout.fields m)

-- What the arms of the `match` write behind the frame header.
unfoldable pub body_bytes : RaftMessage → List ℕ
unfolding entries_bytes concat
body_bytes (request_vote m) = body_of vote_layout m
body_bytes (request_vote_resp m) = body_of vote_resp_layout m
body_bytes (pre_vote m) = body_of vote_layout m
body_bytes (pre_vote_resp m) = body_of vote_resp_layout m
body_bytes (append_entries m payload) = body_of append_layout m ++ payload
body_bytes (append_entries_vectored m entries) = body_of append_layout m ++ entries_bytes entries
body_bytes (append_entries_resp m) = body_of append_resp_layout m
body_bytes (append_entries_seeded m headers payloads) =
    body_of append_layout m ++ (headers ++ payloads)
body_bytes (append_entries_seeded_vectored m headers payloads) =
    body_of append_layout m ++ (headers ++ concat payloads)
body_bytes (install_snapshot m payload) = body_of install_layout m ++ payload
body_bytes (install_snapshot_resp m) = body_of install_resp_layout m
body_bytes (timeout_now m) = body_of timeout_layout m
body_bytes (custom payload) = payload
body_bytes (custom_response payload) = payload

-- `RaftFrameHeader`: magic, version, kind, flags, sender, body length, reserved, group.
abbrev pub frame_widths : List ℕ
frame_widths = 4 ∷ 1 ∷ 1 ∷ 2 ∷ 8 ∷ 4 ∷ 4 ∷ 8 ∷ []

unfoldable pub frame_header : ℕ → RaftMessage → List (ℕ × ℕ)
unfolding kind_of body_total_len
frame_header from msg =
    (4, raft_magic)
    ∷ (1, raft_version)
    ∷ (1, kind_of msg)
    ∷ (2, 0)
    ∷ (8, from)
    ∷ (4, body_total_len msg)
    ∷ (4, 0)
    ∷ (8, 0)
    ∷ []

unfoldable pub encode_message_to_bytes : ℕ → RaftMessage → Result (List ℕ)
unfolding frame_header body_total_len body_bytes fields_bytes
encode_message_to_bytes from msg =
    if ltb u32_max (body_total_len msg)
    then err (protocol "frame body length exceeds u32 wire field")
    else ok (fields_bytes (frame_header from msg) ++ body_bytes msg)

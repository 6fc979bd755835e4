-- ===== src/Wire/Decode.antt =====
-- src/protocol/codec/decode.rs: a frame as a message.
use Prim.Native.String.{String}
use arbitro_raft.Base.{
  ℕ, zero, suc, ◌+◌, ◌*◌, List, [], ◌∷◌, Option, none, some, ltb, ◌==◌, if◌then◌else◌, length, take,
  drop,
}
use arbitro_raft.Error.{protocol, Result, ok, err}
use arbitro_raft.Wire.{
  AppendEntries, InstallSnapshot, RaftMessage, InboundRaftMessage, request_vote, request_vote_resp,
  pre_vote, pre_vote_resp, append_entries, append_entries_seeded, append_entries_resp,
  install_snapshot, install_snapshot_resp, timeout_now, custom, custom_response,
}
use arbitro_raft.Wire.Entries.{read_header}
use arbitro_raft.Wire.Fields.{read_fields}
use arbitro_raft.Wire.Bodies.{
  Layout, vote_layout, vote_resp_layout, append_layout, append_resp_layout, install_layout,
  install_resp_layout, timeout_layout,
}
use arbitro_raft.Wire.Encode.{raft_magic, raft_version, frame_widths}

abbrev pub map_result : {A B : Type 0} → (A → B) → Result A → Result B
map_result f (ok a) = ok (f a)
map_result f (err e) = err e

abbrev pub bind_ok : {A B : Type 0} → Result A → (A → Result B) → Result B
bind_ok (ok a) f = f a
bind_ok (err e) f = err e

module _ {A : Type 0} where
  abbrev with_rest : Option A → List ℕ → String → Result (A × List ℕ)
  with_rest none rest short = err (protocol short)
  with_rest (some a) rest short = ok (a, rest)

  -- The body at the front of the bytes, and what follows it.
  unfoldable pub parse_prefix : Layout A → String → List ℕ → Result (A × List ℕ)
  unfolding read_fields
  parse_prefix layout short buf = elim (read_fields layout.widths buf) [
    | none ↦ err (protocol short)
    | some (values, rest) ↦ with_rest (layout.build values) rest short
  ]

  abbrev no_rest : String → A × List ℕ → Result A
  no_rest trailing (a, []) = ok a
  no_rest trailing (a, b ∷ bs) = err (protocol trailing)

  -- A body that nothing may follow.
  unfoldable pub parse_exact : Layout A → String → String → List ℕ → Result A
  unfolding parse_prefix
  parse_exact layout short trailing buf = bind_ok (parse_prefix layout short buf) (no_rest trailing)

unfoldable pub validate_append_entries_body : ℕ → List ℕ → Result (Unit {0})
unfolding read_header
validate_append_entries_body zero [] = ok tt
validate_append_entries_body zero (b ∷ bs) = err (protocol "append entries trailing bytes")
validate_append_entries_body (suc count) body = elim (read_header body) [
  | none ↦ err (protocol "short append entry header")
  | some (h, rest) ↦
      let others = validate_append_entries_body count (drop h.payload_len rest) in
      if ltb (length rest) h.payload_len
      then err (protocol "short append entry payload")
      else others
]

-- The sum of the payload lengths in `count` headers.
unfoldable pub payloads_len : ℕ → List ℕ → ℕ
unfolding read_header
payloads_len zero headers = 0
payloads_len (suc count) headers = elim (read_header headers) [
  | none ↦ 0
  | some (h, rest) ↦ h.payload_len + payloads_len count rest
]

unfoldable pub decode_append : AppendEntries × List ℕ → Result RaftMessage
unfolding validate_append_entries_body
decode_append (m, payload) =
    map_result (λ _. append_entries m payload) (validate_append_entries_body m.entry_count payload)

unfoldable pub decode_seeded : AppendEntries × List ℕ → Result RaftMessage
unfolding payloads_len
decode_seeded (m, rest) =
    let headers = take (m.entry_count * 24) rest in
    let payloads = drop (m.entry_count * 24) rest in
    if ltb (length rest) (m.entry_count * 24)
    then err (protocol "short seeded headers block")
    else if payloads_len m.entry_count headers == length payloads
    then ok (append_entries_seeded m headers payloads)
    else err (protocol "seeded payloads size mismatch")

unfoldable pub decode_install : InstallSnapshot × List ℕ → Result RaftMessage
decode_install (m, chunk) =
    if length chunk == m.chunk_len
    then ok (install_snapshot m chunk)
    else err (protocol "install snapshot chunk length mismatch")

-- The `match` on the kind.
unfoldable pub decode_body : ℕ → List ℕ → Result RaftMessage
unfolding parse_prefix parse_exact decode_append decode_seeded decode_install
decode_body kind body =
    if kind == 1
    then map_result request_vote
        (parse_exact vote_layout "short request vote body" "request vote trailing bytes" body)
    else if kind == 2
    then map_result request_vote_resp (
        parse_exact vote_resp_layout "short request vote resp body"
          "request vote resp trailing bytes" body)
    else if kind == 10
    then map_result pre_vote
        (parse_exact vote_layout "short pre-vote body" "pre-vote trailing bytes" body)
    else if kind == 11
    then map_result pre_vote_resp (
        parse_exact vote_resp_layout "short pre-vote resp body" "pre-vote resp trailing bytes" body)
    else if kind == 3
    then bind_ok (parse_prefix append_layout "short append entries body" body) decode_append
    else if kind == 4
    then map_result append_entries_resp (
        parse_exact append_resp_layout "short append entries resp body"
          "append entries resp trailing bytes" body)
    else if kind == 9
    then bind_ok (parse_prefix append_layout "short append entries seeded body" body) decode_seeded
    else if kind == 5
    then bind_ok (parse_prefix install_layout "short install snapshot body" body) decode_install
    else if kind == 6
    then map_result install_snapshot_resp (
        parse_exact install_resp_layout "short install snapshot resp body"
          "install snapshot resp trailing bytes" body)
    else if kind == 12
    then map_result timeout_now
        (parse_exact timeout_layout "short timeout now body" "timeout now trailing bytes" body)
    else if kind == 7
    then ok (custom body)
    else if kind == 8
    then ok (custom_response body)
    else err (protocol "unknown raft message kind")

-- The checks of the header in their order.
unfoldable pub check_frame : List ℕ → List ℕ → Result InboundRaftMessage
unfolding decode_body
check_frame (magic ∷ version ∷ kind ∷ flags ∷ from ∷ body_len ∷ reserved ∷ group_id ∷ []) rest =
    if magic == raft_magic
    then if version == raft_version
      then if length rest == body_len
        then map_result (λ m. record { from = from; group_id = group_id; message = m })
            (decode_body kind rest)
        else err (protocol "raft frame length mismatch")
      else err (protocol "unsupported raft frame version")
    else err (protocol "invalid raft frame magic")
check_frame _ rest = err (protocol "short raft frame header")

unfoldable pub decode_message : List ℕ → Result InboundRaftMessage
unfolding check_frame
decode_message frame = elim (read_fields frame_widths frame) [
  | none ↦ err (protocol "short raft frame header")
  | some (fields, rest) ↦ check_frame fields rest
]

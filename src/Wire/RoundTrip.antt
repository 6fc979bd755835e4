-- ===== src/Wire/RoundTrip.antt =====
-- A frame that the encoder writes is decoded as the message it was written from.
use Prim.Native.String.{String}
use arbitro_raft.Base.{
  ℕ, ◌+◌, ◌*◌, ◌^◌, ◌<◌, ◌≤◌, ◌≡◌, refl, ap, ◌∙◌, subst, true, false, List, [], ◌∷◌, ◌++◌, some,
  ltb, ◌==◌, length, take, drop, length-append, arith, u32_max, ==_refl,
}
use mathlib.Core.List.{append_assoc, append-nil}
use arbitro_raft.Types.{LogEntry}
use arbitro_raft.Error.{ok}
use arbitro_raft.Wire.{
  RaftMessage, AppendEntries, InstallSnapshot, request_vote, request_vote_resp, pre_vote,
  pre_vote_resp, append_entries, append_entries_vectored, append_entries_seeded,
  append_entries_seeded_vectored, append_entries_resp, install_snapshot, install_snapshot_resp,
  timeout_now, custom, custom_response,
}
use arbitro_raft.Wire.Bytes.{length-to_le_bytes, to_le_bytes}
use arbitro_raft.Wire.Entries.{
  EntryHeader, entries_bytes, entry_bytes, header_bytes, AllFit, read_header-header_bytes,
  take-length, drop-length,
}
use arbitro_raft.Wire.Fields.{
  fields_bytes, read_fields, fields_fit, widths_of, values_of, read_fields-fields_bytes,
}
use arbitro_raft.Wire.Bodies.{
  Layout, vote_layout, vote_resp_layout, append_layout, append_resp_layout, install_layout,
  install_resp_layout, timeout_layout,
}
use arbitro_raft.Wire.Encode.{
  kind_of, entries_len, slices_len, body_total_len, concat, body_of, body_bytes, frame_widths,
  frame_header, encode_message_to_bytes,
}
use arbitro_raft.Wire.Decode.{
  parse_prefix, parse_exact, map_result, bind_ok, validate_append_entries_body, payloads_len,
  decode_append, decode_seeded, decode_install, decode_body, check_frame, decode_message,
}

-- How the receiver sees the message: the entries and the payloads are one block of bytes.
unfoldable pub wire_form : RaftMessage → RaftMessage
unfolding entries_bytes concat
wire_form (append_entries_vectored m entries) = append_entries m (entries_bytes entries)
wire_form (append_entries_seeded_vectored m headers payloads) =
    append_entries_seeded m headers (concat payloads)
wire_form msg = msg

-- Headers of the announced number, whose payload lengths add up to the payloads.
abbrev pub SeededFits : ℕ → List ℕ → List ℕ → Type 0
SeededFits count headers payloads =
    (length headers ≡ count * 24) × (payloads_len count headers ≡ length payloads)

-- The fields fit their widths, and the counts of the message are those of its content.
unfoldable pub IsSendable : RaftMessage → Type 0
IsSendable (request_vote m) = fields_fit (vote_layout.fields m) ≡ true
IsSendable (request_vote_resp m) = fields_fit (vote_resp_layout.fields m) ≡ true
IsSendable (pre_vote m) = fields_fit (vote_layout.fields m) ≡ true
IsSendable (pre_vote_resp m) = fields_fit (vote_resp_layout.fields m) ≡ true
IsSendable (append_entries m payload) =
    (fields_fit (append_layout.fields m) ≡ true)
    × (validate_append_entries_body m.entry_count payload ≡ ok tt)
IsSendable (append_entries_vectored m entries) =
    (fields_fit (append_layout.fields m) ≡ true) × (m.entry_count ≡ length entries) × AllFit entries
IsSendable (append_entries_resp m) = fields_fit (append_resp_layout.fields m) ≡ true
IsSendable (append_entries_seeded m headers payloads) =
    (fields_fit (append_layout.fields m) ≡ true) × SeededFits m.entry_count headers payloads
IsSendable (append_entries_seeded_vectored m headers payloads) =
    (fields_fit (append_layout.fields m) ≡ true)
    × SeededFits m.entry_count headers (concat payloads)
IsSendable (install_snapshot m payload) =
    (fields_fit (install_layout.fields m) ≡ true) × (length payload ≡ m.chunk_len)
IsSendable (install_snapshot_resp m) = fields_fit (install_resp_layout.fields m) ≡ true
IsSendable (timeout_now m) = fields_fit (timeout_layout.fields m) ≡ true
IsSendable (custom payload) = Unit {0}
IsSendable (custom_response payload) = Unit {0}

module _ {A : Type 0} (layout : Layout A) (m : A) where
  -- What makes a layout read back the fields that it writes.
  abbrev Faithful : Type 0
  Faithful =
      (widths_of (layout.fields m) ≡ layout.widths)
      × (layout.build (values_of (layout.fields m)) ≡ some m)

  parse_prefix-body :
      (short : String) (rest : List ℕ)
      → Faithful
      → fields_fit (layout.fields m) ≡ true
      → parse_prefix layout short (body_of layout m ++ rest) ≡ ok (m, rest)
  unfolding parse_prefix
  parse_prefix-body short rest (w, b) f =
      let r = read_fields-fields_bytes (layout.fields m) rest f in
      let r' : read_fields layout.widths (body_of layout m ++ rest)
          ≡ some (values_of (layout.fields m), rest) =
        subst
          (λ ws.
            read_fields ws (body_of layout m ++ rest) ≡ some (values_of (layout.fields m), rest))
          w r in
      rw (parse_prefix, r', b) refl

  parse_exact-body :
      (short trailing : String)
      → Faithful
      → fields_fit (layout.fields m) ≡ true
      → parse_exact layout short trailing (body_of layout m) ≡ ok m
  unfolding parse_exact
  parse_exact-body short trailing w f =
      let r = parse_prefix-body short [] w f in
      let r' : parse_prefix layout short (body_of layout m) ≡ ok (m, []) =
        subst (λ b. parse_prefix layout short b ≡ ok (m, [])) (append-nil (body_of layout m)) r in
      rw (parse_exact, r') refl

fields_len : List (ℕ × ℕ) → ℕ
fields_len [] = 0
fields_len ((width, value) ∷ fields) = width + fields_len fields

length-fields_bytes : (fields : List (ℕ × ℕ)) → length (fields_bytes fields) ≡ fields_len fields
unfolding fields_bytes fields_len
length-fields_bytes [] = refl
length-fields_bytes ((width, value) ∷ fields) = omega (
  arith,
  length-append (to_le_bytes width value) (fields_bytes fields),
  length-to_le_bytes width value,
  length-fields_bytes fields,
)

length-concat : (ps : List (List ℕ)) → length (concat ps) ≡ slices_len ps
unfolding concat slices_len
length-concat [] = refl
length-concat (p ∷ ps) = omega (arith, length-append p (concat ps), length-concat ps)

length-header_bytes : (h : EntryHeader) → length (header_bytes h) ≡ 24
unfolding header_bytes to_le_bytes
length-header_bytes h = refl

length-entries_bytes : (es : List LogEntry) → length (entries_bytes es) ≡ entries_len es
unfolding entries_bytes entries_len entry_bytes
length-entries_bytes [] = refl
length-entries_bytes (e ∷ es) =
    let h : EntryHeader = record {
      term = e.term;
      index = e.index;
      payload_len = length e.payload;
      pad = 0;
    } in
    omega (
      arith,
      length-append (header_bytes h ++ e.payload) (entries_bytes es),
      length-append (header_bytes h) e.payload,
      length-header_bytes h,
      length-entries_bytes es,
    )

-- The arms of the encoder fill the frame exactly: they write as many bytes as were reserved.
pub length-body_bytes : (msg : RaftMessage) → length (body_bytes msg) ≡ body_total_len msg
unfolding body_bytes body_total_len fields_bytes to_le_bytes vote_layout vote_resp_layout
    append_layout append_resp_layout install_layout install_resp_layout timeout_layout
length-body_bytes (request_vote m) = refl
length-body_bytes (request_vote_resp m) = refl
length-body_bytes (pre_vote m) = refl
length-body_bytes (pre_vote_resp m) = refl
length-body_bytes (append_entries m payload) =
    omega (arith, length-append (body_of append_layout m) payload)
length-body_bytes (append_entries_vectored m entries) = omega (
  arith,
  length-append (body_of append_layout m) (entries_bytes entries),
  length-entries_bytes entries,
)
length-body_bytes (append_entries_resp m) = refl
length-body_bytes (append_entries_seeded m headers payloads) = omega (
  arith,
  length-append (body_of append_layout m) (headers ++ payloads),
  length-append headers payloads,
)
length-body_bytes (append_entries_seeded_vectored m headers payloads) = omega (
  arith,
  length-append (body_of append_layout m) (headers ++ concat payloads),
  length-append headers (concat payloads),
  length-concat payloads,
)
length-body_bytes (install_snapshot m payload) =
    omega (arith, length-append (body_of install_layout m) payload)
length-body_bytes (install_snapshot_resp m) = refl
length-body_bytes (timeout_now m) = refl
length-body_bytes (custom payload) = refl
length-body_bytes (custom_response payload) = refl

validate-entries_bytes :
    (es : List LogEntry)
    → AllFit es
    → validate_append_entries_body (length es) (entries_bytes es) ≡ ok tt
unfolding validate_append_entries_body entries_bytes entry_bytes
validate-entries_bytes [] h = refl
validate-entries_bytes (e ∷ es) (f, fs) =
    let h : EntryHeader = record {
      term = e.term;
      index = e.index;
      payload_len = length e.payload;
      pad = 0;
    } in
    let others = entries_bytes es in
    ground (
      arith,
      append_assoc (header_bytes h ++ e.payload) others [],
      append_assoc (header_bytes h) e.payload others,
      read_header-header_bytes h (e.payload ++ others) f.term_fits f.index_fits f.payload_fits
          (omega arith),
      length-append e.payload others,
      drop-length e.payload others,
      validate-entries_bytes es fs,
    )

decode_append-valid :
    (m : AppendEntries) (payload : List ℕ)
    → validate_append_entries_body m.entry_count payload ≡ ok tt
    → decode_append (m, payload) ≡ ok (append_entries m payload)
unfolding decode_append
decode_append-valid m payload h = rw (decode_append, h) refl

decode_seeded-valid :
    (m : AppendEntries) (headers payloads : List ℕ)
    → SeededFits m.entry_count headers payloads
    → decode_seeded (m, headers ++ payloads) ≡ ok (append_entries_seeded m headers payloads)
unfolding decode_seeded
decode_seeded-valid m headers payloads (l, p) =
    let t : take (m.entry_count * 24) (headers ++ payloads) ≡ headers =
      subst (λ k. take k (headers ++ payloads) ≡ headers) l (take-length headers payloads) in
    let d : drop (m.entry_count * 24) (headers ++ payloads) ≡ payloads =
      subst (λ k. drop k (headers ++ payloads) ≡ payloads) l (drop-length headers payloads) in
    let enough : ltb (length (headers ++ payloads)) (m.entry_count * 24) ≡ false =
      ground (arith, length-append headers payloads, l) in
    rw (decode_seeded, t, d, enough, p, ==_refl (length payloads)) refl

decode_install-valid :
    (m : InstallSnapshot) (chunk : List ℕ)
    → length chunk ≡ m.chunk_len
    → decode_install (m, chunk) ≡ ok (install_snapshot m chunk)
unfolding decode_install
decode_install-valid m chunk h = ground (arith, h)

decode_body-body_bytes :
    (msg : RaftMessage)
    → IsSendable msg
    → decode_body (kind_of msg) (body_bytes msg) ≡ ok (wire_form msg)
unfolding decode_body kind_of body_bytes wire_form IsSendable vote_layout vote_resp_layout
    append_layout append_resp_layout install_layout install_resp_layout timeout_layout
decode_body-body_bytes (request_vote m) f =
    ap (map_result request_vote) (parse_exact-body vote_layout m _ _ (refl, refl) f)
decode_body-body_bytes (request_vote_resp m) f =
    ap (map_result request_vote_resp) (parse_exact-body vote_resp_layout m _ _ (refl, refl) f)
decode_body-body_bytes (pre_vote m) f =
    ap (map_result pre_vote) (parse_exact-body vote_layout m _ _ (refl, refl) f)
decode_body-body_bytes (pre_vote_resp m) f =
    ap (map_result pre_vote_resp) (parse_exact-body vote_resp_layout m _ _ (refl, refl) f)
decode_body-body_bytes (append_entries m payload) (f, v) =
    ap (λ r. bind_ok r decode_append) (parse_prefix-body append_layout m _ payload (refl, refl) f)
    ∙ decode_append-valid m payload v
decode_body-body_bytes (append_entries_vectored m entries) (f, c, fits) =
    ap (λ r. bind_ok r decode_append)
      (parse_prefix-body append_layout m _ (entries_bytes entries) (refl, refl) f)
    ∙ decode_append-valid m (entries_bytes entries) (rw c (validate-entries_bytes entries fits))
decode_body-body_bytes (append_entries_resp m) f =
    ap (map_result append_entries_resp) (parse_exact-body append_resp_layout m _ _ (refl, refl) f)
decode_body-body_bytes (append_entries_seeded m headers payloads) (f, s) =
    ap (λ r. bind_ok r decode_seeded)
      (parse_prefix-body append_layout m _ (headers ++ payloads) (refl, refl) f)
    ∙ decode_seeded-valid m headers payloads s
decode_body-body_bytes (append_entries_seeded_vectored m headers payloads) (f, s) =
    ap (λ r. bind_ok r decode_seeded)
      (parse_prefix-body append_layout m _ (headers ++ concat payloads) (refl, refl) f)
    ∙ decode_seeded-valid m headers (concat payloads) s
decode_body-body_bytes (install_snapshot m chunk) (f, l) =
    ap (λ r. bind_ok r decode_install) (parse_prefix-body install_layout m _ chunk (refl, refl) f)
    ∙ decode_install-valid m chunk l
decode_body-body_bytes (install_snapshot_resp m) f =
    ap (map_result install_snapshot_resp)
      (parse_exact-body install_resp_layout m _ _ (refl, refl) f)
decode_body-body_bytes (timeout_now m) f =
    ap (map_result timeout_now) (parse_exact-body timeout_layout m _ _ (refl, refl) f)
decode_body-body_bytes (custom payload) f = refl
decode_body-body_bytes (custom_response payload) f = refl

kind_of-fits : (msg : RaftMessage) → ltb (kind_of msg) 256 ≡ true
unfolding kind_of
kind_of-fits msg = ground arith

frame_header-fits :
    (from : ℕ) (msg : RaftMessage)
    → from < 256 ^ 8
    → body_total_len msg ≤ u32_max
    → fields_fit (frame_header from msg) ≡ true
unfolding frame_header
frame_header-fits from msg f l = ground (arith, f, l, kind_of-fits msg)

frame_len :
    (from : ℕ) (msg : RaftMessage)
    → length (fields_bytes (frame_header from msg) ++ body_bytes msg) ≡ 32 + body_total_len msg
unfolding frame_header fields_bytes to_le_bytes
frame_len from msg = omega (arith, length-body_bytes msg)

read_header_fields :
    (from : ℕ) (msg : RaftMessage)
    → fields_fit (frame_header from msg) ≡ true
    → read_fields frame_widths (fields_bytes (frame_header from msg) ++ body_bytes msg)
      ≡ some (values_of (frame_header from msg), body_bytes msg)
unfolding frame_header
read_header_fields from msg f = read_fields-fields_bytes (frame_header from msg) (body_bytes msg) f

-- The header passes its checks, and the body is what follows it.
check_frame-header :
    (from : ℕ) (msg : RaftMessage)
    → check_frame (values_of (frame_header from msg)) (body_bytes msg)
      ≡ map_result
          (λ m. record { from = from; group_id = 0; message = m })
          (decode_body (kind_of msg) (body_bytes msg))
unfolding check_frame frame_header
check_frame-header from msg =
    let l : (length (body_bytes msg) == body_total_len msg) ≡ true =
      ground (arith, length-body_bytes msg) in
    rw (check_frame, l) refl

decode_frame :
    (from : ℕ) (msg : RaftMessage)
    → fields_fit (frame_header from msg) ≡ true
    → IsSendable msg
    → decode_message (fields_bytes (frame_header from msg) ++ body_bytes msg)
      ≡ ok (record { from = from; group_id = 0; message = wire_form msg })
unfolding decode_message
decode_frame from msg f s =
    let body = body_bytes msg in
    let r : read_fields frame_widths (fields_bytes (frame_header from msg) ++ body)
        ≡ some (values_of (frame_header from msg), body) =
      read_header_fields from msg f in
    rw (decode_message, r, check_frame-header from msg, decode_body-body_bytes msg s) refl

-- A message is sendable when its fields, and those of its entries, fit their widths, its entry count
-- is that of its entries, or of the whole entries in its raw body, its seeded headers are of the
-- announced number with payload lengths that add up to the payloads, and its chunk length is that of
-- its chunk. A sendable message of a sender that is a word, whose body fits the length word, is
-- encoded, in 32 bytes and the reserved length of its body, and its frame is decoded, for the default
-- group, as the message was sent: entries and payload slices as one block of bytes.
pub decode_message-encode_message_to_bytes :
    (from : ℕ) (msg : RaftMessage)
    → from < 256 ^ 8
    → body_total_len msg ≤ u32_max
    → IsSendable msg
    → (frame : List ℕ) × (encode_message_to_bytes from msg ≡ ok frame)
      × (length frame ≡ 32 + body_total_len msg)
      × (decode_message frame ≡ ok (record { from = from; group_id = 0; message = wire_form msg }))
unfolding encode_message_to_bytes
decode_message-encode_message_to_bytes from msg f l s = (
  fields_bytes (frame_header from msg) ++ body_bytes msg,
  ground (arith, l),
  frame_len from msg,
  decode_frame from msg (frame_header-fits from msg f l) s,
)

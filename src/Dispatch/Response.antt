-- ===== src/Dispatch/Response.antt =====
-- src/dispatch/response.rs, and the magic numbers of src/dispatch/view.rs: the frame of an answer to
-- a dispatch.
use arbitro_raft.Base.{
  ℕ, List, [], ◌∷◌, ◌++◌, none, some, ltb, ◌==◌, if◌then◌else◌, length, u32_max,
}
use arbitro_raft.Error.{dispatch, Result, ok, err}
use arbitro_raft.Wire.Fields.{fields_bytes, read_fields}

pub data DispatchResponseKind : Type 0 where
  kind_accepted kind_rejected kind_progress kind_failed : DispatchResponseKind

pub record DispatchResponse : Type 0 where
  pub tx_id : ℕ
  pub command : ℕ
  pub kind : DispatchResponseKind
  pub payload : List ℕ

abbrev pub response_magic : ℕ
response_magic = 1146245968

abbrev pub response_version : ℕ
response_version = 1

unfoldable pub kind_byte : DispatchResponseKind → ℕ
kind_byte kind_accepted = 0
kind_byte kind_rejected = 1
kind_byte kind_progress = 2
kind_byte kind_failed = 3

unfoldable pub kind_of_byte : ℕ → DispatchResponseKind
kind_of_byte byte =
    if byte == 0
    then kind_accepted
    else if byte == 1
    then kind_rejected
    else if byte == 2
    then kind_progress
    else kind_failed

-- `DispatchResponseFrameHeader`: magic, version, command, kind, padding, transaction, body length.
abbrev pub response_widths : List ℕ
response_widths = 4 ∷ 1 ∷ 1 ∷ 1 ∷ 1 ∷ 8 ∷ 4 ∷ []

unfoldable pub response_header : DispatchResponse → List (ℕ × ℕ)
unfolding kind_byte
response_header r =
    (4, response_magic)
    ∷ (1, response_version)
    ∷ (1, r.command)
    ∷ (1, kind_byte r.kind)
    ∷ (1, 0)
    ∷ (8, r.tx_id)
    ∷ (4, length r.payload)
    ∷ []

unfoldable pub encode_dispatch_response : DispatchResponse → Result (List ℕ)
unfolding response_header fields_bytes
encode_dispatch_response r =
    if ltb u32_max (length r.payload)
    then err (dispatch "dispatch response payload length exceeds u32 wire field")
    else ok (fields_bytes (response_header r) ++ r.payload)

-- The checks of `parse` in their order, on the fields of the header and the bytes behind it; the
-- result has what the accessors of the view answer. The body is all that follows the header.
unfoldable pub check_response : List ℕ → List ℕ → Result DispatchResponse
unfolding kind_of_byte
check_response (magic ∷ version ∷ command ∷ kind ∷ pad ∷ tx_id ∷ body_len ∷ []) rest =
    if magic == response_magic
    then if version == response_version
      then if ltb (length rest) body_len
        then err (dispatch "dispatch response body length mismatch")
        else if ltb 3 kind
        then err (dispatch "unknown dispatch response kind")
        else ok
            (record { tx_id = tx_id; command = command; kind = kind_of_byte kind; payload = rest })
      else err (dispatch "unsupported dispatch response version")
    else err (dispatch "invalid dispatch response magic")
check_response _ rest = err (dispatch "short dispatch response header")

unfoldable pub parse_response : List ℕ → Result DispatchResponse
unfolding check_response read_fields
parse_response frame = elim (read_fields response_widths frame) [
  | none ↦ err (dispatch "short dispatch response header")
  | some (fields, rest) ↦ check_response fields rest
]

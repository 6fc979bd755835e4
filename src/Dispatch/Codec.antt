-- ===== src/Dispatch/Codec.antt =====
-- The frames of answers to a dispatch, and the identifiers of its transactions.
use arbitro_raft.Base.{
  ℕ, zero, suc, ◌+◌, ◌%◌, ◌^◌, ◌<◌, ◌≤◌, ◌≡◌, ◌≢◌, refl, List, ◌++◌, some, arith, length,
  length-append, u32_max,
}
use mathlib.Core.List.{append_assoc}
use arbitro_raft.Error.{ok}
use arbitro_raft.Wire.Fields.{fields_bytes, read_fields, values_of, read_fields-fields_bytes}
use arbitro_raft.Dispatch.Spec.{next_tx_id}
use arbitro_raft.Dispatch.Response.{
  DispatchResponse, DispatchResponseKind, kind_accepted, kind_rejected, kind_progress, kind_failed,
  kind_byte, kind_of_byte, response_header, response_widths, encode_dispatch_response,
  check_response, parse_response,
}

kind_of_byte-kind_byte : (k : DispatchResponseKind) → kind_of_byte (kind_byte k) ≡ k
unfolding kind_of_byte kind_byte
kind_of_byte-kind_byte kind_accepted = refl
kind_of_byte-kind_byte kind_rejected = refl
kind_of_byte-kind_byte kind_progress = refl
kind_of_byte-kind_byte kind_failed = refl

kind_byte-le : (k : DispatchResponseKind) → kind_byte k ≤ 3
unfolding kind_byte
kind_byte-le k = ground arith

read_response_fields :
    (r : DispatchResponse) (rest : List ℕ)
    → r.command < 256
    → r.tx_id < 256 ^ 8
    → length r.payload ≤ u32_max
    → read_fields response_widths (fields_bytes (response_header r) ++ rest)
      ≡ some (values_of (response_header r), rest)
unfolding response_header
read_response_fields r rest c t l =
    read_fields-fields_bytes (response_header r) rest (ground (arith, c, t, l, kind_byte-le r.kind))

check_response-header :
    (r : DispatchResponse) (more : List ℕ)
    → check_response (values_of (response_header r)) (r.payload ++ more)
      ≡ ok (record r { payload = r.payload ++ more })
unfolding check_response response_header
check_response-header r more =
    ground (arith, length-append r.payload more, kind_byte-le r.kind, kind_of_byte-kind_byte r.kind)

-- An answer whose command, transaction and payload fit is encoded, and its frame, whatever follows
-- it, parses as the answer, with what follows at the end of its payload.
pub parse_response-encode_dispatch_response :
    (r : DispatchResponse) (more : List ℕ)
    → r.command < 256
    → r.tx_id < 256 ^ 8
    → length r.payload ≤ u32_max
    → (frame : List ℕ) × (encode_dispatch_response r ≡ ok frame)
      × (parse_response (frame ++ more) ≡ ok (record r { payload = r.payload ++ more }))
unfolding encode_dispatch_response parse_response
parse_response-encode_dispatch_response r more c t l =
    let header = fields_bytes (response_header r) in
    (
      header ++ r.payload,
      ground (arith, l),
      rw
          (
            parse_response,
            append_assoc header r.payload more,
            read_response_fields r (r.payload ++ more) c t l,
            check_response-header r more,
          )
          refl,
    )

-- The counter of a specification after a number of draws.
unfoldable pub counter_after : ℕ → ℕ → ℕ → ℕ
unfolding next_tx_id
counter_after command counter zero = counter
counter_after command counter (suc k) = counter_after command (next_tx_id command counter).1 k

counter_after-wraps :
    (command counter k : ℕ)
    → counter < 2 ^ 64
    → counter_after command counter k ≡ (counter + k) % 2 ^ 64
unfolding counter_after next_tx_id
counter_after-wraps command counter zero h = ground (arith, h)
counter_after-wraps command counter (suc k) h =
    let r = counter_after-wraps command ((counter + 1) % 2 ^ 64) k (omega arith) in omega (arith, r)

-- Two draws of a command with fewer than 2^56 draws between them are distinct, wherever the counter
-- of the specification starts.
pub next_tx_id-distinct :
    (command counter j k : ℕ)
    → counter < 2 ^ 64
    → j < k
    → k < j + 2 ^ 56
    → (next_tx_id command (counter_after command counter j)).0
      ≢ (next_tx_id command (counter_after command counter k)).0
unfolding next_tx_id
next_tx_id-distinct command counter j k h a b e =
    let at_j = counter_after-wraps command counter j h in
    let at_k = counter_after-wraps command counter k h in omega (arith, e, a, b, at_j, at_k)

-- ===== src/Dispatch/Envelope.antt =====
-- src/dispatch/builder.rs and view.rs: what a frame that was built shows when it is parsed.
use arbitro_raft.Base.{
  ℕ, ◌^◌, not, ◌==◌, min, ◌≡◌, ◌<◌, ◌≤◌, refl, ◌∙◌, Bool, true, false, List, ◌++◌, some, arith,
  length, length-append, u32_max,
}
use mathlib.Core.List.{append_assoc}
use arbitro_raft.Error.{ok}
use arbitro_raft.Wire.Fields.{fields_bytes, read_fields, values_of, read_fields-fields_bytes}
use arbitro_raft.Dispatch.{DispatchAckPolicy, DispatchFailPolicy}
use arbitro_raft.Dispatch.Spec.{DispatchScope, DispatchOptions, next_tx_id}
use arbitro_raft.Dispatch.View.{
  DispatchView, DispatchSpec, DispatchEnvelope, scope_byte, scope_of_byte, ack_byte, ack_of_byte,
  flag_byte, fail_byte, fail_of_byte, dispatch_widths, dispatch_header, build, build_body,
  envelope_of, check_dispatch, parse_dispatch,
}

scope_of_byte-scope_byte : (s : DispatchScope) → scope_of_byte (scope_byte s) ≡ s
unfolding scope_of_byte scope_byte
scope_of_byte-scope_byte s = ground arith

ack_of_byte-ack_byte : (p : DispatchAckPolicy) → ack_of_byte (ack_byte p) ≡ p
unfolding ack_of_byte ack_byte
ack_of_byte-ack_byte p = ground arith

fail_of_byte-fail_byte : (p : DispatchFailPolicy) → fail_of_byte (fail_byte p) ≡ p
unfolding fail_of_byte fail_byte
fail_of_byte-fail_byte p = ground arith

flag_byte-trace : (b : Bool) → not (flag_byte b == 0) ≡ b
flag_byte-trace true = refl
flag_byte-trace false = refl

bytes-le :
    (o : DispatchOptions)
    → (scope_byte o.scope ≤ 4) × (ack_byte o.ack.policy ≤ 4) × (fail_byte o.fail.policy ≤ 4)
unfolding scope_byte ack_byte fail_byte
bytes-le o = (ground arith, ground arith, ground arith)

parse_dispatch-fields :
    (frame fields rest : List ℕ)
    → read_fields dispatch_widths frame ≡ some (fields, rest)
    → parse_dispatch frame ≡ check_dispatch frame fields rest
unfolding parse_dispatch
parse_dispatch-fields frame fields rest e = rw (parse_dispatch, e) refl

module _ {P R : Type 0} (spec : DispatchSpec P R) (options : DispatchOptions) where
  -- What the frame of a body shows when it is parsed with `more` behind it.
  abbrev pub view_of : List ℕ → List ℕ → DispatchView
  view_of body more = record {
    frame = (envelope_of spec options body).bytes ++ more;
    command = spec.command;
    tx_id = (next_tx_id spec.command spec.seq).0;
    scope = options.scope;
    ack_policy = options.ack.policy;
    fail_policy = options.fail.policy;
    trace = options.trace;
    timeout_ms = min options.timeout u32_max;
    body = body ++ more;
  }

  next_tx_id-fits : spec.command < 256 → (next_tx_id spec.command spec.seq).0 < 256 ^ 8
  unfolding next_tx_id
  next_tx_id-fits c = omega (arith, c)

  read_dispatch_fields :
      (tx_id n : ℕ) (rest : List ℕ)
      → spec.command < 256
      → tx_id < 256 ^ 8
      → n ≤ u32_max
      → read_fields dispatch_widths
          (fields_bytes (dispatch_header spec.command tx_id options n) ++ rest)
        ≡ some (values_of (dispatch_header spec.command tx_id options n), rest)
  unfolding dispatch_header
  read_dispatch_fields tx_id n rest c t l =
      read_fields-fields_bytes (dispatch_header spec.command tx_id options n) rest
        (ground (arith, c, t, l, bytes-le options))

  check_dispatch-header :
      (body more : List ℕ)
      → check_dispatch
          ((envelope_of spec options body).bytes ++ more)
          (values_of (
            dispatch_header spec.command
              (next_tx_id spec.command spec.seq).0
              options
              (length body)))
          (body ++ more)
        ≡ ok (view_of body more)
  unfolding check_dispatch dispatch_header
  check_dispatch-header body more = ground (
    arith,
    length-append body more,
    bytes-le options,
    flag_byte-trace options.trace,
    scope_of_byte-scope_byte options.scope,
    ack_of_byte-ack_byte options.ack.policy,
    fail_of_byte-fail_byte options.fail.policy,
  )

  parse_dispatch-envelope :
      (body more : List ℕ)
      → spec.command < 256
      → length body ≤ u32_max
      → parse_dispatch ((envelope_of spec options body).bytes ++ more) ≡ ok (view_of body more)
  unfolding parse_dispatch envelope_of
  parse_dispatch-envelope body more c l =
      let tx_id = (next_tx_id spec.command spec.seq).0 in
      let header = dispatch_header spec.command tx_id options (length body) in
      parse_dispatch-fields ((envelope_of spec options body).bytes ++ more) (values_of header)
        (body ++ more)
        (rw (append_assoc (fields_bytes header) body more)
          (read_dispatch_fields tx_id (length body) (body ++ more) c (next_tx_id-fits c) l))
      ∙ check_dispatch-header body more

  -- A body of the user's encoder that fits, of a specification whose command is a byte, is built
  -- into a frame that, whatever follows it, parses as what the options say, with the drawn
  -- transaction, the timeout cut to the wire field, and what follows at the end of the body.
  pub parse_dispatch-build :
      (params : P) (body more : List ℕ)
      → spec.encode_params params ≡ ok body
      → spec.command < 256
      → length body ≤ u32_max
      → (envelope : DispatchEnvelope) × ((build spec params options).0 ≡ ok envelope)
        × (parse_dispatch (envelope.bytes ++ more) ≡ ok (view_of body more))
  unfolding build build_body
  parse_dispatch-build params body more e c l = (
    envelope_of spec options body,
    rw (build, e) (ground (arith, l)),
    parse_dispatch-envelope body more c l,
  )

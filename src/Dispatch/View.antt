-- ===== src/Dispatch/View.antt =====
-- src/dispatch/view.rs and builder.rs, and the specification of src/dispatch/spec.rs: the frame of a
-- dispatch, built from a specification with the codecs of the user, and parsed.
use arbitro_raft.Base.{
  ℕ, min, Bool, true, false, not, List, [], ◌∷◌, ◌++◌, none, some, ltb, ◌==◌, if◌then◌else◌, length,
  u32_max,
}
use arbitro_raft.Error.{dispatch, Result, ok, err}
use arbitro_raft.Wire.Fields.{fields_bytes, read_fields}
use arbitro_raft.Dispatch.{
  DispatchAckPolicy, all, quorum, at_least, by_percent, best_effort, DispatchFailPolicy,
  allow_failures, no_failures, max_failures, max_failure_percent, fail_fast,
}
use arbitro_raft.Dispatch.Spec.{
  DispatchScope, scope_all, scope_others, scope_followers, scope_leader, scope_local_only,
  DispatchOptions, next_tx_id,
}

-- The frame itself, and what the accessors of the view answer.
pub record DispatchView : Type 0 where
  pub frame : List ℕ
  pub command : ℕ
  pub tx_id : ℕ
  pub scope : DispatchScope
  pub ack_policy : DispatchAckPolicy
  pub fail_policy : DispatchFailPolicy
  pub trace : Bool
  pub timeout_ms : ℕ
  pub body : List ℕ

-- `seq` is the counter behind `next_tx_id`.
pub record DispatchSpec (P R : Type 0) : Type 0 where
  pub command : ℕ
  pub defaults : DispatchOptions
  pub seq : ℕ
  pub encode_params : P → Result (List ℕ)
  pub decode_params : List ℕ → Result P
  pub encode_response : R → Result (List ℕ)
  pub decode_response : List ℕ → Result R

pub record DispatchEnvelope : Type 0 where
  pub tx_id : ℕ
  pub command : ℕ
  pub bytes : List ℕ
  pub options : DispatchOptions

abbrev pub dispatch_magic : ℕ
dispatch_magic = 1146310740

abbrev pub dispatch_version : ℕ
dispatch_version = 1

unfoldable pub scope_byte : DispatchScope → ℕ
scope_byte scope_all = 0
scope_byte scope_others = 1
scope_byte scope_followers = 2
scope_byte scope_leader = 3
scope_byte scope_local_only = 4

unfoldable pub scope_of_byte : ℕ → DispatchScope
scope_of_byte byte =
    if byte == 1
    then scope_others
    else if byte == 2
    then scope_followers
    else if byte == 3
    then scope_leader
    else if byte == 4
    then scope_local_only
    else scope_all

unfoldable pub ack_byte : DispatchAckPolicy → ℕ
ack_byte all = 0
ack_byte quorum = 1
ack_byte at_least = 2
ack_byte by_percent = 3
ack_byte best_effort = 4

unfoldable pub ack_of_byte : ℕ → DispatchAckPolicy
ack_of_byte byte =
    if byte == 0
    then all
    else if byte == 2
    then at_least
    else if byte == 3
    then by_percent
    else if byte == 4
    then best_effort
    else quorum

unfoldable pub fail_byte : DispatchFailPolicy → ℕ
fail_byte allow_failures = 0
fail_byte no_failures = 1
fail_byte max_failures = 2
fail_byte max_failure_percent = 3
fail_byte fail_fast = 4

unfoldable pub fail_of_byte : ℕ → DispatchFailPolicy
fail_of_byte byte =
    if byte == 1
    then no_failures
    else if byte == 2
    then max_failures
    else if byte == 3
    then max_failure_percent
    else if byte == 4
    then fail_fast
    else allow_failures

abbrev pub flag_byte : Bool → ℕ
flag_byte true = 1
flag_byte false = 0

-- `DispatchFrameHeader`: magic, version, command, scope, the two policies, trace, two bytes of
-- padding, transaction, timeout, body length.
abbrev pub dispatch_widths : List ℕ
dispatch_widths = 4 ∷ 1 ∷ 1 ∷ 1 ∷ 1 ∷ 1 ∷ 1 ∷ 2 ∷ 8 ∷ 4 ∷ 4 ∷ []

unfoldable pub dispatch_header : ℕ → ℕ → DispatchOptions → ℕ → List (ℕ × ℕ)
unfolding scope_byte ack_byte fail_byte
dispatch_header command tx_id options body_len =
    (4, dispatch_magic)
    ∷ (1, dispatch_version)
    ∷ (1, command)
    ∷ (1, scope_byte options.scope)
    ∷ (1, ack_byte options.ack.policy)
    ∷ (1, fail_byte options.fail.policy)
    ∷ (1, flag_byte options.trace)
    ∷ (2, 0)
    ∷ (8, tx_id)
    ∷ (4, min options.timeout u32_max)
    ∷ (4, body_len)
    ∷ []

-- The envelope of an encoded body, and the specification with the counter after the draw.
unfoldable pub envelope_of :
    {P R : Type 0} → DispatchSpec P R → DispatchOptions → List ℕ → DispatchEnvelope
unfolding dispatch_header fields_bytes next_tx_id
envelope_of spec options body =
    let tx_id = (next_tx_id spec.command spec.seq).0 in
    record {
      tx_id = tx_id;
      command = spec.command;
      bytes = fields_bytes (dispatch_header spec.command tx_id options (length body)) ++ body;
      options = options;
    }

unfoldable pub build_body :
    {P R : Type 0}
    → DispatchSpec P R
    → DispatchOptions
    → Result (List ℕ)
    → Result DispatchEnvelope × DispatchSpec P R
unfolding envelope_of
build_body spec options (err e) = (err e, spec)
build_body spec options (ok body) =
    if ltb u32_max (length body)
    then (err (dispatch "dispatch body length exceeds u32 wire field"), spec)
    else (
      ok (envelope_of spec options body),
      record spec { seq = (next_tx_id spec.command spec.seq).1 },
    )

-- `build`, of the parameters and the options that the builder holds.
unfoldable pub build :
    {P R : Type 0}
    → DispatchSpec P R
    → P
    → DispatchOptions
    → Result DispatchEnvelope × DispatchSpec P R
unfolding build_body
build spec params options = build_body spec options (spec.encode_params params)

-- The checks of `parse` in their order. The body is all that follows the header.
unfoldable pub check_dispatch : List ℕ → List ℕ → List ℕ → Result DispatchView
unfolding scope_of_byte ack_of_byte fail_of_byte
check_dispatch frame
      (magic ∷ version ∷ command ∷ scope ∷ ack ∷ fail ∷ trace ∷ pad ∷ tx_id ∷ timeout ∷ body_len
        ∷ [])
      rest =
    if not (magic == dispatch_magic)
    then err (dispatch "invalid dispatch magic")
    else if not (version == dispatch_version)
    then err (dispatch "unsupported dispatch version")
    else if ltb (length rest) body_len
    then err (dispatch "dispatch body length mismatch")
    else if ltb 4 scope
    then err (dispatch "unknown dispatch scope")
    else if ltb 4 ack
    then err (dispatch "unknown dispatch ack policy")
    else if ltb 4 fail
    then err (dispatch "unknown dispatch fail policy")
    else ok (record {
      frame = frame;
      command = command;
      tx_id = tx_id;
      scope = scope_of_byte scope;
      ack_policy = ack_of_byte ack;
      fail_policy = fail_of_byte fail;
      trace = not (trace == 0);
      timeout_ms = timeout;
      body = rest;
    })
check_dispatch frame _ rest = err (dispatch "short dispatch frame header")

unfoldable pub parse_dispatch : List ℕ → Result DispatchView
unfolding check_dispatch read_fields
parse_dispatch frame = elim (read_fields dispatch_widths frame) [
  | none ↦ err (dispatch "short dispatch frame header")
  | some (fields, rest) ↦ check_dispatch frame fields rest
]

-- `params`: the frame must carry the command of the specification.
unfoldable pub view_params : {P R : Type 0} → DispatchView → DispatchSpec P R → Result P
view_params view spec =
    if view.command == spec.command
    then spec.decode_params view.body
    else err (dispatch "dispatch command mismatch")

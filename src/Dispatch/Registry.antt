-- ===== src/Dispatch/Registry.antt =====
-- src/api/custom_registry.rs: the handlers that users registered, one slot for each command. `W` is
-- the state that handlers and responders act on. A handler never leaves the lock poisoned, so the
-- errors of a poisoned lock are left out. `error_text` is the text that a failed decoding answers.
use arbitro_raft.Base.{
  ℕ, Bool, true, false, List, map, Option, none, some, get_elem?, set, replicate, if◌then◌else◌,
}
use arbitro_raft.Error.{RaftError, dispatch, Result, ok, err}
use arbitro_raft.Dispatch.Spec.{DispatchScope, DispatchRoute, allows}
use arbitro_raft.Dispatch.Response.{DispatchResponse, kind_failed}
use arbitro_raft.Dispatch.View.{DispatchView, DispatchSpec, parse_dispatch, view_params}

abbrev pub Responder : Type 0 → Type 0
Responder W = DispatchResponse → W → Result (Unit {0}) × W

abbrev pub Requester : Type 0 → Type 0
Requester W = ℕ → List ℕ → W → Result (List ℕ) × W

pub record DispatchContextView (W : Type 0) : Type 0 where
  pub tx_id : ℕ
  pub command : ℕ
  pub responder : Responder W
  pub requester : Option (Requester W)

abbrev pub ErasedHandler : Type 0 → Type 0
ErasedHandler W = DispatchView → DispatchContextView W → W → Result (Unit {0}) × W

pub record DispatchRegistration (W : Type 0) : Type 0 where
  pub scope : DispatchScope
  pub handler : ErasedHandler W

abbrev pub SealedSlot : Type 0 → Type 0
SealedSlot W = Option (DispatchScope × ErasedHandler W)

pub record RaftCustomRegistry (W : Type 0) : Type 0 where
  pub handlers : List (Option (DispatchRegistration W))
  pub sealed : Option (List (SealedSlot W))

-- An index into 256 slots; a command is a byte, so it is in range.
abbrev pub slot_at : {A : Type 0} → List (Option A) → ℕ → Option A
slot_at slots command = elim (get_elem? slots command) [ none ↦ none | some slot ↦ slot ]

abbrev pub is_taken : {A : Type 0} → Option A → Bool
is_taken none = false
is_taken (some a) = true

-- No route allows every scope.
abbrev pub route_allowed : Option DispatchRoute → DispatchScope → Bool
route_allowed none scope = true
route_allowed (some route) scope = allows scope route

module _ {W : Type 0} where
  unfoldable pub new_registry : RaftCustomRegistry W
  new_registry = record { handlers = replicate 256 none; sealed = none }

  abbrev pub freeze : Option (DispatchRegistration W) → SealedSlot W
  freeze none = none
  freeze (some e) = some (e.scope, e.handler)

  -- It succeeds always, and a second time it changes nothing.
  unfoldable pub seal : RaftCustomRegistry W → RaftCustomRegistry W
  seal r = elim r.sealed [
    | none ↦ record r { sealed = some (map freeze r.handlers) }
    | some frozen ↦ r
  ]

  unfoldable pub contains_command : RaftCustomRegistry W → ℕ → Bool
  contains_command r command = elim r.sealed [
    | some frozen ↦ is_taken (slot_at frozen command)
    | none ↦ is_taken (slot_at r.handlers command)
  ]

  unfoldable pub scope_for : RaftCustomRegistry W → ℕ → Option DispatchScope
  scope_for r command = elim r.sealed [
    | some frozen ↦ elim (slot_at frozen command) [ none ↦ none | some (scope, h) ↦ some scope ]
    | none ↦ elim (slot_at r.handlers command) [ none ↦ none | some e ↦ some e.scope ]
  ]

  -- `fail` of the context.
  unfoldable pub fail_with : DispatchContextView W → List ℕ → W → Result (Unit {0}) × W
  fail_with ctx reason =
      ctx.responder
        (record { tx_id = ctx.tx_id; command = ctx.command; kind = kind_failed; payload = reason })

  -- `ctx.fail(..).await?; Err(err)`.
  abbrev pub then_err : RaftError → Result (Unit {0}) × W → Result (Unit {0}) × W
  then_err e (ok u, w) = (err e, w)
  then_err e (err failure, w) = (err failure, w)

  -- The closure that decodes the parameters for the handler.
  unfoldable pub erase :
      {P R : Type 0}
      → (RaftError → List ℕ)
      → DispatchSpec P R
      → (P → DispatchContextView W → W → Result (Unit {0}) × W)
      → ErasedHandler W
  unfolding view_params fail_with
  erase error_text spec handler view ctx w = elim (view_params view spec) [
    | ok params ↦ handler params ctx w
    | err e ↦ then_err e (fail_with ctx (error_text e) w)
  ]

  unfoldable pub on_with :
      {P R : Type 0}
      → (RaftError → List ℕ)
      → DispatchSpec P R
      → (P → DispatchContextView W → W → Result (Unit {0}) × W)
      → RaftCustomRegistry W
      → Result (Unit {0}) × RaftCustomRegistry W
  unfolding erase
  on_with error_text spec handler r =
      if is_taken r.sealed
      then (err (dispatch "cannot register handlers after seal()"), r)
      else if is_taken (slot_at r.handlers spec.command)
      then (err (dispatch "dispatch command already registered"), r)
      else (
        ok tt,
        record r {
          handlers = set r.handlers spec.command (
              some
                (record { scope = spec.defaults.scope; handler = erase error_text spec handler }));
        },
      )

  -- The handler of the command in a slot, or why there is none.
  unfoldable pub select :
      Option DispatchRoute → Option (DispatchScope × ErasedHandler W) → Result (ErasedHandler W)
  unfolding allows
  select route none = err (dispatch "no dispatch handler registered")
  select route (some (scope, handler)) =
      if route_allowed route scope
      then ok handler
      else err (dispatch "dispatch command not allowed for route")

  -- The sealed path and the path through the lock.
  unfoldable pub handler_for :
      RaftCustomRegistry W → Option DispatchRoute → ℕ → Result (ErasedHandler W)
  unfolding select
  handler_for r route command = elim r.sealed [
    | some frozen ↦ select route (slot_at frozen command)
    | none ↦ elim (slot_at r.handlers command) [
      | none ↦ select route none
      | some e ↦ select route (some (e.scope, e.handler))
    ]
  ]

  -- `handler(..).await?; Ok(dispatch)`.
  abbrev pub then_view : DispatchView → Result (Unit {0}) × W → Result DispatchView × W
  then_view view (ok u, w) = (ok view, w)
  then_view view (err e, w) = (err e, w)

  abbrev pub context_of : DispatchView → Responder W → Option (Requester W) → DispatchContextView W
  context_of view responder requester = record {
    tx_id = view.tx_id;
    command = view.command;
    responder = responder;
    requester = requester;
  }

  abbrev pub run_handler :
      DispatchView → DispatchContextView W → Result (ErasedHandler W) → W → Result DispatchView × W
  run_handler view ctx (err e) w = (err e, w)
  run_handler view ctx (ok handler) w = then_view view (handler view ctx w)

  -- `invoke_bytes_for` behind the parsing of the frame.
  unfoldable pub invoke_view :
      RaftCustomRegistry W
      → Responder W
      → Option (Requester W)
      → Option DispatchRoute
      → Result DispatchView
      → W
      → Result DispatchView × W
  unfolding handler_for
  invoke_view r responder requester route (err e) w = (err e, w)
  invoke_view r responder requester route (ok view) w =
      run_handler view (context_of view responder requester) (handler_for r route view.command) w

  unfoldable pub invoke_bytes_for :
      RaftCustomRegistry W
      → List ℕ
      → Responder W
      → Option (Requester W)
      → Option DispatchRoute
      → W
      → Result DispatchView × W
  unfolding invoke_view
  invoke_bytes_for r frame responder requester route w =
      invoke_view r responder requester route (parse_dispatch frame) w

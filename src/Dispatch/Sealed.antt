-- ===== src/Dispatch/Sealed.antt =====
-- src/api/custom_registry.rs: a registry before and after it is sealed.
use arbitro_raft.Base.{ℕ, ◌≡◌, refl, List, [], ◌∷◌, map, Option, none, some, zero, suc}
use arbitro_raft.Error.{Result, ok, err}
use arbitro_raft.Dispatch.Spec.{DispatchScope, DispatchRoute}
use arbitro_raft.Dispatch.View.{DispatchView, parse_dispatch}
use arbitro_raft.Dispatch.Registry.{
  Responder, Requester, RaftCustomRegistry, DispatchRegistration, slot_at, freeze, seal,
  contains_command, scope_for, handler_for, select, ErasedHandler, is_taken, invoke_view,
  invoke_bytes_for,
}

module _ {W : Type 0} where
  slot_at-freeze :
      (slots : List (Option (DispatchRegistration W))) (c : ℕ)
      → slot_at (map freeze slots) c ≡ freeze (slot_at slots c)
  slot_at-freeze [] c = refl
  slot_at-freeze (s ∷ slots) zero = refl
  slot_at-freeze (s ∷ slots) (suc c) = slot_at-freeze slots c

  -- The registry with the slots of `r`, sealed or not.
  abbrev with_seal :
      RaftCustomRegistry W
      → Option (List (Option (DispatchScope × ErasedHandler W)))
      → RaftCustomRegistry W
  with_seal r sealed = record r { sealed = sealed }

  handler_for-seal :
      (r : RaftCustomRegistry W) (route : Option DispatchRoute) (c : ℕ)
      → handler_for (seal r) route c ≡ handler_for r route c
  unfolding seal handler_for
  handler_for-seal r route c =
      elim r.sealed
        as (λ s. handler_for (seal (with_seal r s)) route c ≡ handler_for (with_seal r s) route c) [
          | some frozen ↦ refl
          | none ↦
              rw (slot_at-freeze r.handlers c)
                (elim (slot_at r.handlers c)
                  as (λ slot. select route (freeze slot) ≡ elim slot [
                    | none ↦ select route none
                    | some e ↦ select route (some (e.scope, e.handler))
                  ]) [ none ↦ refl | some e ↦ refl ])
        ]

  contains_command-seal :
      (r : RaftCustomRegistry W) (c : ℕ) → contains_command (seal r) c ≡ contains_command r c
  unfolding seal contains_command
  contains_command-seal r c =
      elim r.sealed
        as (λ s. contains_command (seal (with_seal r s)) c ≡ contains_command (with_seal r s) c) [
          | some frozen ↦ refl
          | none ↦
              rw (slot_at-freeze r.handlers c)
                (elim (slot_at r.handlers c) as (λ slot. is_taken (freeze slot) ≡ is_taken slot) [
                  | none ↦ refl
                  | some e ↦ refl
                ])
        ]

  scope_for-seal : (r : RaftCustomRegistry W) (c : ℕ) → scope_for (seal r) c ≡ scope_for r c
  unfolding seal scope_for
  scope_for-seal r c =
      elim r.sealed as (λ s. scope_for (seal (with_seal r s)) c ≡ scope_for (with_seal r s) c) [
        | some frozen ↦ refl
        | none ↦
            rw (scope_for, seal, slot_at-freeze r.handlers c)
              (elim (slot_at r.handlers c)
                as (λ slot.
                  elim (freeze slot) [ none ↦ none | some x ↦ some x.0 ]
                  ≡ elim slot [ none ↦ none | some e ↦ some e.scope ]) [
                    | none ↦ refl
                    | some e ↦ refl
                  ])
      ]

  invoke_view-seal :
      (r : RaftCustomRegistry W) (responder : Responder W) (requester : Option (Requester W))
      (route : Option DispatchRoute) (parsed : Result DispatchView) (w : W)
      → invoke_view (seal r) responder requester route parsed w
        ≡ invoke_view r responder requester route parsed w
  unfolding invoke_view
  invoke_view-seal r responder requester route (err e) w = refl
  invoke_view-seal r responder requester route (ok view) w =
      rw (handler_for-seal r route view.command) refl

  -- Sealing changes nothing that a caller can observe: which commands have a handler, their scopes,
  -- and what the invocation of any frame, on any route, returns and does.
  pub invoke_bytes_for-seal :
      (r : RaftCustomRegistry W)
      → ((c : ℕ) → contains_command (seal r) c ≡ contains_command r c)
        × ((c : ℕ) → scope_for (seal r) c ≡ scope_for r c)
        × ((frame : List ℕ) (responder : Responder W) (requester : Option (Requester W))
              (route : Option DispatchRoute) (w : W)
            → invoke_bytes_for (seal r) frame responder requester route w
              ≡ invoke_bytes_for r frame responder requester route w)
  unfolding invoke_bytes_for
  invoke_bytes_for-seal r = (
    contains_command-seal r,
    scope_for-seal r,
    λ frame responder requester route w.
        invoke_view-seal r responder requester route (parse_dispatch frame) w,
  )

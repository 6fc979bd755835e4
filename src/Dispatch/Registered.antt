-- ===== src/Dispatch/Registered.antt =====
-- src/api/custom_registry.rs: the handler that the frame of a registered specification reaches.
use arbitro_raft.Base.{
  ℕ, ◌≡◌, ◌≢◌, ◌<◌, ◌≤◌, refl, true, List, ◌++◌, Option, none, some, arith, length, set,
  get_elem?-set_self, get_elem?-set_ne, u32_max,
}
use arbitro_raft.Error.{RaftError, Result, ok}
use arbitro_raft.Dispatch.Spec.{DispatchRoute, DispatchOptions}
use arbitro_raft.Dispatch.View.{DispatchView, DispatchSpec, DispatchEnvelope, build, view_params}
use arbitro_raft.Dispatch.Registry.{
  Responder, Requester, DispatchContextView, RaftCustomRegistry, slot_at, freeze, handler_for,
  on_with, erase, select, route_allowed, invoke_view, then_view, context_of, invoke_bytes_for,
}
use arbitro_raft.Dispatch.Envelope.{view_of, parse_dispatch-build}

handler_for-open :
    {W : Type 0} (r : RaftCustomRegistry W) (route : Option DispatchRoute) (c : ℕ)
    → r.sealed ≡ none
    → handler_for r route c ≡ select route (freeze (slot_at r.handlers c))
unfolding handler_for
handler_for-open r route c e =
    rw (handler_for, e)
      (elim (slot_at r.handlers c)
        as (λ slot.
          elim slot [ none ↦ select route none | some e ↦ select route (some (e.scope, e.handler)) ]
          ≡ select route (freeze slot)) [ none ↦ refl | some e ↦ refl ])

erase-decoded :
    {W P R : Type 0} (error_text : RaftError → List ℕ) (spec : DispatchSpec P R)
    (handler : P → DispatchContextView W → W → Result (Unit {0}) × W) (view : DispatchView)
    (params : P) (ctx : DispatchContextView W) (w : W)
    → view.command ≡ spec.command
    → spec.decode_params view.body ≡ ok params
    → erase error_text spec handler view ctx w ≡ handler params ctx w
unfolding erase view_params
erase-decoded error_text spec handler view params ctx w e d = ground (arith, e, d)

module _ {W P R : Type 0} (error_text : RaftError → List ℕ) (spec : DispatchSpec P R)
    (handler : P → DispatchContextView W → W → Result (Unit {0}) × W) (r : RaftCustomRegistry W)
    (open_registry : r.sealed ≡ none) (free : slot_at r.handlers spec.command ≡ none) where
  registered : RaftCustomRegistry W
  registered = record r {
    handlers =
        set r.handlers spec.command
          (some (record { scope = spec.defaults.scope; handler = erase error_text spec handler }));
  }

  on_with-registered : on_with error_text spec handler r ≡ (ok tt, registered)
  unfolding on_with registered
  on_with-registered = rw (on_with, open_registry, free) refl

  handler_for-registered :
      (route : Option DispatchRoute)
      → spec.command < length r.handlers
      → route_allowed route spec.defaults.scope ≡ true
      → handler_for registered route spec.command ≡ ok (erase error_text spec handler)
  unfolding handler_for registered select
  handler_for-registered route c a =
      let slot : slot_at registered.handlers spec.command
          ≡ some (record { scope = spec.defaults.scope; handler = erase error_text spec handler }) =
        rw
          (
            slot_at,
            get_elem?-set_self r.handlers spec.command
                (some
                  (record { scope = spec.defaults.scope; handler = erase error_text spec handler }))
                c,
          )
          refl in
      rw (handler_for-open registered route spec.command open_registry, slot, select, a) refl

  handler_for-unregistered :
      (route : Option DispatchRoute) (command : ℕ)
      → spec.command ≢ command
      → handler_for registered route command ≡ handler_for r route command
  unfolding handler_for registered
  handler_for-unregistered route command ne =
      rw
        (
          handler_for-open registered route command open_registry,
          handler_for-open r route command open_registry,
          slot_at,
          get_elem?-set_ne r.handlers spec.command command
              (some
                (record { scope = spec.defaults.scope; handler = erase error_text spec handler }))
              ne,
        )
        refl

  -- A specification is registered in an open registry in which its command, a byte with a slot, is
  -- free. Then a frame that it builds with any options, from parameters that its codecs carry over,
  -- is built, and on a route that the default scope of the specification allows, invoking the frame,
  -- whatever follows it, runs the handler on these parameters, in the context of the drawn
  -- transaction. The handler of another command stays, on every route.
  pub invoke_bytes_for-on_with :
      (params : P) (options : DispatchOptions) (body more : List ℕ) (route : Option DispatchRoute)
      (responder : Responder W) (requester : Option (Requester W)) (w : W) (other : ℕ)
      → spec.command < 256
      → spec.command < length r.handlers
      → spec.encode_params params ≡ ok body
      → spec.decode_params (body ++ more) ≡ ok params
      → length body ≤ u32_max
      → route_allowed route spec.defaults.scope ≡ true
      → spec.command ≢ other
      → let view = view_of spec options body more in
        (after : RaftCustomRegistry W) × (envelope : DispatchEnvelope) × (on_with error_text spec
            handler r
          ≡ (ok tt, after))
        × ((build spec params options).0 ≡ ok envelope)
        × (invoke_bytes_for after (envelope.bytes ++ more) responder requester route w
            ≡ then_view view (handler params (context_of view responder requester) w))
        × ((any_route : Option DispatchRoute)
            → handler_for after any_route other ≡ handler_for r any_route other)
  unfolding invoke_bytes_for invoke_view
  invoke_bytes_for-on_with params options body more route responder requester w other b c e d l a
        ne =
      let (envelope, built, parsed) = parse_dispatch-build spec options params body more e b l in
      let view = view_of spec options body more in
      (
        registered,
        envelope,
        on_with-registered,
        built,
        rw
            (
              parsed,
              handler_for-registered route c a,
              erase-decoded error_text spec handler view params
                  (context_of view responder requester) w refl d,
            )
            refl,
        λ any_route. handler_for-unregistered any_route other ne,
      )

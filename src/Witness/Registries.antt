-- ===== src/Witness/Registries.antt =====
-- The theorems on the registry of custom handlers, at one that appends what it is given to a list,
-- and on the slots of waiting clients, at two slots.
use arbitro_raft.Base.{ℕ, ◌≡◌, ◌≢◌, refl, some, none, List, [], ◌∷◌, ◌++◌, Option, arith}
use arbitro_raft.Error.{RaftError, not_leader, invalid_payload, Result, ok, err}
use arbitro_raft.Slots.{
  SlotRegistry, slot_pending, new_slots, lease, release, notify_committed, notify_error, state_of,
  decode_state, slot_id, probe, free_at, lease_at, take_slot, index_of, generation_of,
}
use arbitro_raft.Slots.Leases.{lease-delivers, release-ends_current_lease}
use arbitro_raft.Dispatch.Spec.{DispatchRoute, default_options}
use arbitro_raft.Dispatch.View.{DispatchSpec, DispatchEnvelope, build}
use arbitro_raft.Dispatch.Envelope.{view_of}
use arbitro_raft.Dispatch.Registry.{
  RaftCustomRegistry, Responder, Requester, DispatchContextView, new_registry, on_with, seal,
  contains_command, scope_for, handler_for, invoke_bytes_for,
}
use arbitro_raft.Dispatch.Sealed.{invoke_bytes_for-seal}
use arbitro_raft.Dispatch.Registered.{invoke_bytes_for-on_with}

abbrev first_byte : List ℕ → Result ℕ
first_byte [] = err (invalid_payload "empty")
first_byte (x ∷ xs) = ok x

-- A command whose parameter and answer are one byte.
abbrev byte_spec : DispatchSpec ℕ ℕ
byte_spec = record {
  command = 3;
  defaults = default_options;
  seq = 5;
  encode_params = λ x. ok (x ∷ []);
  decode_params = first_byte;
  encode_response = λ x. ok (x ∷ []);
  decode_response = first_byte;
}

-- The bytes that were handled so far.
abbrev append_byte : ℕ → DispatchContextView (List ℕ) → List ℕ → Result (Unit {0}) × List ℕ
append_byte x ctx seen = (ok tt, seen ++ x ∷ [])

abbrev no_text : RaftError → List ℕ
no_text e = []

abbrev empty_registry : RaftCustomRegistry (List ℕ)
unfolding new_registry
empty_registry = new_registry

abbrev one_handler : RaftCustomRegistry (List ℕ)
unfolding on_with
one_handler = (on_with no_text byte_spec append_byte empty_registry).1

invoke_bytes_for-seal_example :
    ((c : ℕ) → contains_command (seal one_handler) c ≡ contains_command one_handler c)
    × ((c : ℕ) → scope_for (seal one_handler) c ≡ scope_for one_handler c)
    × ((frame : List ℕ) (responder : Responder (List ℕ)) (requester : Option (Requester (List ℕ)))
          (route : Option DispatchRoute) (w : List ℕ)
        → invoke_bytes_for (seal one_handler) frame responder requester route w
          ≡ invoke_bytes_for one_handler frame responder requester route w)
invoke_bytes_for-seal_example = invoke_bytes_for-seal one_handler

-- A responder that drops what it is given.
abbrev silent : Responder (List ℕ)
silent response seen = (ok tt, seen)

invoke_bytes_for-on_with_example :
    let view = view_of byte_spec default_options (42 ∷ []) (9 ∷ []) in
    (after : RaftCustomRegistry (List ℕ)) × (envelope : DispatchEnvelope) × (on_with no_text
        byte_spec append_byte empty_registry
      ≡ (ok tt, after))
    × ((build byte_spec 42 default_options).0 ≡ ok envelope)
    × (invoke_bytes_for after (envelope.bytes ++ 9 ∷ []) silent none none (1 ∷ [])
        ≡ (ok view, 1 ∷ 42 ∷ []))
    × ((any_route : Option DispatchRoute)
        → handler_for after any_route 4 ≡ handler_for empty_registry any_route 4)
unfolding default_options empty_registry
invoke_bytes_for-on_with_example =
    invoke_bytes_for-on_with no_text byte_spec append_byte empty_registry refl refl 42
      default_options (42 ∷ []) (9 ∷ []) none silent none (1 ∷ []) 4 (omega arith) (omega arith)
      refl refl (omega arith) refl (λ e. omega (arith, e))

abbrev two_slots : SlotRegistry
unfolding new_slots
two_slots = new_slots 2

-- The first lease of the first slot.
abbrev first_lease : ℕ
unfolding slot_id
first_lease = slot_id 0 1

-- A lease of the same slot before.
abbrev earlier_lease : ℕ
unfolding slot_id
earlier_lease = slot_id 0 0

lease-delivers_example :
    (state_of two_slots first_lease ≢ some slot_pending)
    × (state_of (lease two_slots).1 first_lease ≡ some slot_pending)
    × ((v : ℕ) × (state_of (notify_committed (lease two_slots).1 first_lease 7) first_lease
          ≡ some v)
        × (v ≢ slot_pending)
        × (decode_state v ≡ ok 7))
    × (notify_committed (lease two_slots).1 earlier_lease 7 ≡ (lease two_slots).1)
    × (notify_error (lease two_slots).1 earlier_lease ≡ (lease two_slots).1)
unfolding lease probe free_at lease_at two_slots first_lease earlier_lease index_of generation_of
lease-delivers_example =
    lease-delivers two_slots first_lease 7 earlier_lease (omega arith) refl (omega arith) refl
      (λ e. omega (arith, e))

release-ends_current_lease_example :
    (v : ℕ) × (state_of (release (lease two_slots).1 earlier_lease) first_lease ≡ some v)
    × (decode_state v ≡ err (not_leader none))
unfolding lease probe free_at lease_at two_slots first_lease earlier_lease index_of state_of
    take_slot
release-ends_current_lease_example =
    release-ends_current_lease (lease two_slots).1 earlier_lease first_lease refl refl

-- ===== src/Node/Custom.antt =====
-- src/api/node/dispatch.rs: the handlers of custom frames. The handlers that users registered, and
-- the transactions behind the pending dispatches, are the fields of an interface.
use arbitro_raft.Base.{
  ℕ, Bool, true, false, List, map, ◌++◌, if◌then◌else◌, ◌==◌, contains, retain, not,
}
use arbitro_raft.Error.{Result, ok}
use arbitro_raft.Wire.{custom_response}
use arbitro_raft.Dispatch.Spec.{DispatchRoute, DispatchNodeRole, leader_role, follower_role}
use arbitro_raft.Dispatch.Response.{DispatchResponse, parse_response}
use arbitro_raft.Node.{M, modify, ◌>>=◌, pure, is_leader}

-- `invoke_bytes_scoped` of a frame on a route: its result, and the response frames it sent.
-- `answer` is `on_response_ref` of a pending transaction: whether it is ready afterwards.
pub record CustomHandlers : Type 0 where
  pub invoke_bytes_scoped : List ℕ → DispatchRoute → Result (Unit {0}) × List (List ℕ)
  pub answer : ℕ → DispatchResponse → Result Bool

abbrev role_of : Bool → DispatchNodeRole
role_of true = leader_role
role_of false = follower_role

module _ {S : Type 0} where
  -- `pending_custom.remove` of a transaction that is ready.
  abbrev pub forget_ready : ℕ → Bool → M S (Unit {0})
  forget_ready tx_id true =
      modify λ n. record n { pending_custom = retain (λ t. not (t == tx_id)) n.pending_custom }
  forget_ready tx_id false = pure tt

module _ {S : Type 0} (custom : CustomHandlers) where
  unfoldable pub handle_custom_message : ℕ → List ℕ → M S (Unit {0})
  handle_custom_message from payload n =
      let route : DispatchRoute = record {
        role = role_of (is_leader n);
        is_origin = from == n.config.node_id;
      } in
      let (result, replies) = custom.invoke_bytes_scoped payload route in
      (result, record n { outbox = n.outbox ++ map (λ r. (from, custom_response r)) replies })

  abbrev deliver : ℕ → DispatchResponse → M S (Unit {0})
  deliver from response n =
      if contains n.pending_custom response.tx_id
      then ((λ m. (custom.answer from response, m)) >>= forget_ready response.tx_id) n
      else (ok tt, n)

  unfoldable pub handle_custom_response : ℕ → List ℕ → M S (Unit {0})
  unfolding parse_response
  handle_custom_response from payload = (λ n. (parse_response payload, n)) >>= deliver from

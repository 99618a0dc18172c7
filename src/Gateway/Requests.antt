-- ===== src/Gateway/Requests.antt =====
-- Requests on their way to a service: sendRequest, handleInvokeMessage and sendDirectRequest of
-- src/service_broker/Services/ServiceGateway.cpp.
use Prim.Native.String
use rdws_us.Prelude.{
  ℕ, String, Bool, true, false, ◌&&◌, Option, none, some, [], ◌∷◌, ◌==◌, if◌then◌else◌,
}
use rdws_us.Prelude.Int.{pos}
use rdws_us.Prelude.Floats.{Floats}
use rdws_us.Prelude.Table.{Table, text_key, number_key, lookup, insert, erase}
use rdws_us.Json.{Json, boolean, int, str, object, find, get_string}
use rdws_us.Registry.{LoadBalancingStrategy, least_loaded}
use rdws_us.Registry.Select.{select_best_service}
use rdws_us.Config.{lb_strategy_for}
use rdws_us.Router.{resolve}
use rdws_us.Gateway.Types.{
  ClientConnection, PendingRequest, Gateway, World, queued, in_flight, default_timeout, is_queued,
  put_request, send_message, generate_request_id,
}

-- The first connection, in the order of the descriptors, that is identified as the service.
unfoldable pub find_target : String → Table ℕ ClientConnection → Option ℕ
find_target id [] = none
find_target id ((fd, conn) ∷ m) =
    if conn.identified && conn.service_id == id then some fd else find_target id m

-- A caller that passes LEAST_LOADED gets the configured strategy.
abbrev pub effective : LoadBalancingStrategy → LoadBalancingStrategy → LoadBalancingStrategy
effective least_loaded configured = configured
effective strategy configured = strategy

-- A queued request that is still queued goes in flight; one that was answered meanwhile stays.
unfoldable pub advance : ℕ → PendingRequest → PendingRequest
advance now p = if is_queued p.state then record p { state = in_flight; updated_at = now } else p

abbrev pub advance_at : ℕ → String → Table String PendingRequest → Table String PendingRequest
advance_at now id m = elim (lookup id m) [ none ↦ m | some p ↦ insert id (advance now p) m ]

module _ {D : Type 0} where
  abbrev pub request_message : String → String → Json D → Json D
  request_message request_id capability payload = object (
      ("type", str "REQUEST")
      ∷ ("requestId", str request_id)
      ∷ ("capability", str capability)
      ∷ ("data", payload)
      ∷ [])

  abbrev pub no_service : String → String → Json D
  no_service request_id capability = object (
      ("type", str "INVOKE_RESPONSE")
      ∷ ("requestId", str request_id)
      ∷ ("statusCode", int (pos 503))
      ∷ ("success", boolean false)
      ∷ ("error", str (String.◌++◌ "No available service for capability " capability))
      ∷ [])

module _ {F : Floats} where
  unfoldable pub send_direct_request :
      World F → String → Json F.D → Gateway F.D → Bool × Gateway F.D
  unfolding find_target
  send_direct_request w id message g = elim (find_target id g.active_connections) [
    | none ↦ (false, g)
    | some fd ↦ send_message w fd message g
  ]

  abbrev pub new_request : World F → String → String → String → Json F.D → Option ℕ → PendingRequest
  new_request w request_id target capability payload originator = record {
    request_id = request_id;
    target_service_id = target;
    capability = capability;
    request_payload = w.render payload;
    response_payload = "";
    error_message = "";
    state = queued;
    status_code = pos 202;
    timeout = default_timeout;
    created_at = w.now;
    updated_at = w.now;
    originator_fd = originator;
  }

  -- The second half of sendRequest and of handleInvokeMessage: the request is stored, sent, and
  -- put in flight, or erased again where it cannot be sent.
  unfoldable pub submit : World F → PendingRequest → Json F.D → Gateway F.D → Bool × Gateway F.D
  unfolding send_direct_request
  submit w p payload g =
      let message = request_message p.request_id p.capability payload in
      let (delivered, g') = send_direct_request w p.target_service_id message (put_request p g) in
      if delivered
      then (
        true,
        record g' { pending_requests = advance_at w.now p.request_id g'.pending_requests },
      )
      else (false, record g' { pending_requests = erase p.request_id g'.pending_requests })

  -- The answer is the request id, or "" where no service is available or reached.
  unfoldable pub send_request :
      World F → String → Json F.D → LoadBalancingStrategy → Gateway F.D → String × Gateway F.D
  unfolding submit
  send_request w capability payload strategy g =
      let resolved = resolve F capability payload g.router in
      let (target, registry') =
        select_best_service F w.draw w.now resolved
          (effective strategy (lb_strategy_for resolved g.config)) g.registry in
      let g₁ = record g { registry = registry' } in
      if target == ""
      then ("", g₁)
      else (let (id, g₂) = generate_request_id g₁ in
          let (delivered, g₃) =
            submit w (new_request w id target resolved payload none) payload g₂ in
          if delivered then (id, g₃) else ("", g₃))

  -- handleInvokeMessage behind its guard.
  unfoldable pub invoke :
      World F → ℕ → String → String → Json F.D → Gateway F.D → Bool × Gateway F.D
  unfolding submit
  invoke w fd request_id capability payload g =
      let resolved = resolve F capability payload g.router in
      let (target, registry') =
        select_best_service F w.draw w.now resolved (lb_strategy_for resolved g.config)
          g.registry in
      let g₁ = record g { registry = registry' } in
      if target == ""
      then (false, (send_message w fd (no_service request_id resolved) g₁).1)
      else submit w (new_request w request_id target resolved payload (some fd)) payload g₁

  unfoldable pub handle_invoke_message : World F → ℕ → Json F.D → Gateway F.D → Bool × Gateway F.D
  unfolding invoke
  handle_invoke_message w fd message g = elim (get_string message "requestId") [
    | none ↦ (false, g)
    | some request_id ↦ elim (get_string message "capability") [
      | none ↦ (false, g)
      | some capability ↦ elim (find "data" message) [
        | none ↦ (false, g)
        | some payload ↦ invoke w fd request_id capability payload g
      ]
    ]
  ]

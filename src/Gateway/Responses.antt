-- ===== src/Gateway/Responses.antt =====
-- handleResponseMessage of src/service_broker/Services/ServiceGateway.cpp.
use rdws_us.Prelude.{
  ℕ, ◌-◌, ◌/◌, String, Bool, true, false, not, ◌&&◌, none, some, [], ◌∷◌, ◌==◌, if◌then◌else◌,
  is_some, value_or,
}
use rdws_us.Prelude.Int.{ℤ, pos}
use rdws_us.Prelude.Floats.{Floats}
use rdws_us.Prelude.Table.{text_key, lookup, insert, erase}
use rdws_us.Json.{Json, boolean, int, str, obj, end, object, find, get_string, get_int, get_object}
use rdws_us.Registry.{ServiceRegistry}
use rdws_us.Registry.Queries.{record_response_time, record_service_error}
use rdws_us.Gateway.Types.{
  PendingRequest, Gateway, World, completed, failed, nanos_per_milli, send_message, publish_event,
}

abbrev pub latency_ms : ℕ → PendingRequest → ℕ
latency_ms now p = (now - p.created_at) / nanos_per_milli

module _ {D : Type 0} where
  -- A service reports an error by the status "error" or by an error text, inside "data".
  abbrev data_status_error : Json D → Bool
  data_status_error o = elim (get_string o "status") [ none ↦ false | some s ↦ s == "error" ]

  unfoldable pub is_error : Json D → Bool
  is_error message = elim (get_object message "data") [
    | none ↦ false
    | some o ↦ if is_some (get_string o "error") then true else data_status_error o
  ]

  -- The text of the error: that of "data", else that of the message, else the text "message" of
  -- an erroneous "data".
  unfoldable pub error_text : Json D → String
  unfolding is_error
  error_text message =
      let outer = value_or (get_string message "error") "" in
      elim (get_object message "data") [
        | none ↦ outer
        | some o ↦ elim (get_string o "error") [
          | some e ↦ if e == "" then value_or (get_string o "message") e else e
          | none ↦
              if is_error message && outer == ""
              then value_or (get_string o "message") outer
              else outer
        ]
      ]

  abbrev failure_code : Json D → ℤ
  failure_code message = elim (get_object message "data") [
    | none ↦ pos 500
    | some o ↦ value_or (get_int o "statusCode") (pos 500)
  ]

  -- The request with its response, before it is stored, forwarded or dropped.
  unfoldable pub answered : ℕ → (Json D → String) → Json D → PendingRequest → PendingRequest
  unfolding is_error error_text
  answered now render message p =
      let payload : String = elim (find "data" message) [
        | none ↦ p.response_payload
        | some d ↦ render d
      ] in
      if is_error message
      then record p {
        response_payload = payload;
        updated_at = now;
        state = failed;
        status_code = failure_code message;
        error_message =
            if error_text message == ""
            then "Service returned an error response"
            else error_text message;
      }
      else record p {
        response_payload = payload;
        updated_at = now;
        state = completed;
        status_code = pos 200;
        error_message = "";
      }

  abbrev outcome_member : Json D → PendingRequest → String × Json D
  outcome_member message p =
      if is_error message
      then ("error", str p.error_message)
      else ("data", value_or (find "data" message) (obj end))

  unfoldable pub invoke_response : Json D → PendingRequest → String → Json D
  invoke_response message p request_id = object (
      ("type", str "INVOKE_RESPONSE")
      ∷ ("requestId", str request_id)
      ∷ ("statusCode", int p.status_code)
      ∷ ("success", boolean (not (is_error message)))
      ∷ outcome_member message p
      ∷ [])

  -- static_cast<int> of the milliseconds, for latencies below 2^31.
  abbrev pub completed_event : String → PendingRequest → Bool → ℕ → Json D
  completed_event request_id p success latency = object (
      ("requestId", str request_id)
      ∷ ("capability", str p.capability)
      ∷ ("serviceId", str p.target_service_id)
      ∷ ("success", boolean success)
      ∷ ("latencyMs", int (pos latency))
      ∷ [])

abbrev after_stats : Floats → Bool → String → ℕ → ServiceRegistry → ServiceRegistry
after_stats F is_failure target latency r =
    let r' = record_response_time F target (pos latency) r in
    if is_failure then record_service_error target r' else r'

module _ {F : Floats} where
  -- Where the response goes: to the service that invoked, to a waiting thread, or nowhere; the
  -- slot is kept for a waiting thread only.
  unfoldable pub route_response :
      World F → String → PendingRequest → Json F.D → Gateway F.D → Gateway F.D
  unfolding invoke_response
  route_response w request_id p message g = elim p.originator_fd [
    | some fd ↦
        let g' = (send_message w fd (invoke_response message p request_id) g).1 in
        record g' { pending_requests = erase request_id g'.pending_requests }
    | none ↦
        if is_some (lookup request_id g.response_waiters)
        then record g { pending_requests = insert request_id p g.pending_requests }
        else record g { pending_requests = erase request_id g.pending_requests }
  ]

  unfoldable pub accept_response :
      World F → String → PendingRequest → Json F.D → Gateway F.D → Gateway F.D
  unfolding answered route_response
  accept_response w request_id p message g =
      let p' = answered w.now w.render message p in
      let latency = latency_ms w.now p in
      let g₁ = record g {
        registry = after_stats F (is_error message) p.target_service_id latency g.registry;
      } in
      publish_event "request.completed"
        (completed_event request_id p (not (is_error message)) latency)
        (route_response w request_id p' message g₁)

  unfoldable pub handle_response_message : World F → Json F.D → Gateway F.D → Bool × Gateway F.D
  unfolding accept_response
  handle_response_message w message g = elim (get_string message "requestId") [
    | none ↦ (false, g)
    | some request_id ↦ elim (lookup request_id g.pending_requests) [
      | none ↦ (false, g)
      | some p ↦ (true, accept_response w request_id p message g)
    ]
  ]

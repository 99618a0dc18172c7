-- ===== src/Tests/Gateway.antt =====
-- A gateway with one service, connected on descriptor 4, and one request in flight.
use rdws_us.Prelude.{
  ap, ℕ, String, false, true, none, some, [], ◌∷◌, ◌++◌, ◌≡◌, ◌≢◌, refl, sym, ◌==◌, if◌then◌else◌,
  is_some, All, keep_if, leb, ◌*◌, ◌-◌,
}
use rdws_us.Prelude.Run.{done, blocked}
use rdws_us.Prelude.Int.{pos}
use rdws_us.Prelude.Table.{text_key, number_key, lookup, Distinct}
use rdws_us.Json.{str, Json, object, get_string, get_object}
use rdws_us.Identity.{from_json, is_healthy, is_overloaded, get_load_percentage}
use rdws_us.Registry.{empty_registry, least_loaded}
use rdws_us.Registry.Locking.{any_service}
use rdws_us.Router.{resolve, to_string}
use rdws_us.Registry.Select.{select_best_service, choose}
use rdws_us.Registry.Queries.{find_available_services, range}
use rdws_us.Config.{lb_strategy_for, for_capability}
use rdws_us.Gateway.Types.{
  World, Gateway, is_terminal, request_id_of, generate_request_id, send_message,
}
use rdws_us.Gateway.Requests.{find_target, send_request, invoke, no_service, new_request}
use rdws_us.Gateway.Responses.{answered, handle_response_message}
use rdws_us.Gateway.Waiting.{
  get_request_status, not_found_status, begin_wait, finish_wait, request_not_found,
  cleanup_expired_requests,
}
use rdws_us.Gateway.Connections.{
  receive, receive_all, close_connection, handle_identify_message, acknowledgement, health_round,
}
use rdws_us.Gateway.Correlation.{
  get_request_status-handle_response_message, slot_after, sent_after,
  handle_response_message-Correlates, finish_wait-early_response,
}
use rdws_us.Gateway.Sending.{
  Delivered, chosen, resolved, invoke_target, invoke_capability, send_request-InFlight,
  invoke-unanswered,
}
use rdws_us.Gateway.Expiry.{IsCurrent, finish_wait-IsTerminal, cleanup_expired_requests-NoneOverdue}
use rdws_us.Gateway.Disconnect.{NoneWaitsFor, failed_at, close_connection-FailsRequests}
use rdws_us.Gateway.Identifying.{health_round_cases, identity, handle_identify_message-new}
use rdws_us.Gateway.Targets.{FirstServing}
use rdws_us.Gateway.Lifecycle.{sent_request, finish_wait-send_request}
use rdws_us.Gateway.Steps.{Step, Reached, Reached-Slotted}
use rdws_us.Gateway.Handlers.{Slotted}
use rdws_us.Gateway.Accepting.{concat, receive_all-concat}
use rdws_us.Tests.Data.{naturals, echo, connection, pending, gateway, world, response}

named : get_string response "requestId" ≡ some "req_1"
unfolding get_string
named = refl

in_flight_there : lookup "req_1" gateway.pending_requests ≡ some pending
unfolding lookup
in_flight_there = refl

not_waited : lookup "req_1" gateway.response_waiters ≡ none
unfolding lookup
not_waited = refl

handle_response_message-Correlates_example :
    let p' = answered 5 world.render response pending in
    let (accepted, g') = handle_response_message world response gateway in
    (accepted ≡ true)
    × ((j : String)
        → lookup j g'.pending_requests ≡ (
            if "req_1" == j
            then slot_after "req_1" p' gateway
            else lookup j gateway.pending_requests))
    × (g'.sent ≡ sent_after "req_1" p' response gateway)
    × (g'.response_waiters ≡ gateway.response_waiters)
handle_response_message-Correlates_example =
    handle_response_message-Correlates naturals world "req_1" response pending gateway named
      in_flight_there

finish_wait-early_response_example :
    let result =
      (finish_wait 9 "req_1"
        (begin_wait "req_1" (handle_response_message world response gateway).1)).0 in
    (result ≡ request_not_found 9 "req_1")
    × (result.status_code ≡ pos 404)
    × (result.error_message ≡ "Request not found")
finish_wait-early_response_example =
    finish_wait-early_response naturals world "req_1" response pending gateway 9 named
      in_flight_there not_waited

get_request_status-handle_response_message_example :
    get_request_status 9 "req_1" (handle_response_message world response gateway).1
    ≡ not_found_status "req_1"
get_request_status-handle_response_message_example =
    get_request_status-handle_response_message naturals world "req_1" response pending gateway 9
      named in_flight_there refl not_waited

finish_wait-IsTerminal_example :
    let (result, g') = finish_wait 9 "req_1" gateway in
    (is_terminal result.state ≡ true)
    × ((j : String)
        → lookup j g'.pending_requests
          ≡ (if "req_1" == j then none else lookup j gateway.pending_requests))
    × (lookup "req_1" g'.response_waiters ≡ none)
finish_wait-IsTerminal_example = finish_wait-IsTerminal 9 "req_1" gateway

requests-Distinct : Distinct gateway.pending_requests
unfolding lookup
requests-Distinct = (refl, tt)

cleanup_expired_requests-NoneOverdue_example :
    All (λ e. IsCurrent 9 e.1) (cleanup_expired_requests 9 gateway).pending_requests
cleanup_expired_requests-NoneOverdue_example = cleanup_expired_requests-NoneOverdue 9 gateway

named_service : echo.service_id ≢ ""
named_service e = cc

close_connection-FailsRequests_example :
    (g' : Gateway ℕ) × (close_connection 4 gateway ≡ done g')
    × ((j : ℕ)
        → lookup j g'.active_connections
          ≡ (if number_key.beq 4 j then none else lookup j gateway.active_connections))
    × (lookup "echo-1" g'.registry.identities ≡ none)
    × NoneWaitsFor "echo-1" g'.pending_requests
    × ((id : String)
        → lookup id g'.pending_requests ≡ failed_at "echo-1" (lookup id gateway.pending_requests))
unfolding lookup
close_connection-FailsRequests_example = close_connection-FailsRequests 4 gateway refl named_service

health_round_cases_example : health_round 100000000000 gateway ≡ (
    if any_service
      (λ s. leb (61 * 1000000000) (100000000000 - s.last_ping))
      gateway.registry.identities
    then blocked
    else done (cleanup_expired_requests 100000000000 gateway))
health_round_cases_example = health_round_cases 100000000000 gateway refl

echo_registered : is_some (lookup "echo-1" gateway.registry.identities) ≡ true
unfolding lookup
echo_registered = refl

-- Before the service is registered.
abbrev young : Gateway ℕ
young = record gateway { registry = empty_registry }

active : lookup 4 young.active_connections ≡ some connection
unfolding lookup
active = refl

unregistered : lookup "echo-1" young.registry.identities ≡ none
unfolding lookup
unregistered = refl

abbrev introduction : Json ℕ
introduction = object (("serviceId", str "echo-1") ∷ ("serviceName", str "echo") ∷ [])

abbrev identify_message : Json ℕ
identify_message = object (("type", str "IDENTIFY") ∷ ("identity", introduction) ∷ [])

has_identity : get_object identify_message "identity" ≡ some introduction
unfolding get_object
has_identity = refl

has_id : (identity world 4 identify_message introduction young).service_id ≢ ""
unfolding from_json get_string
has_id e = cc

unknown_id :
    lookup
      (identity world 4 identify_message introduction young).service_id
      young.registry.identities
    ≡ none
unfolding lookup
unknown_id = refl

has_name : (identity world 4 identify_message introduction young).service_name ≢ ""
unfolding from_json get_string
has_name e = cc

handle_identify_message-new_example :
    (g' : Gateway ℕ) × (handle_identify_message world 4 identify_message young ≡ done (true, g'))
    × (is_some (
          lookup
            (identity world 4 identify_message introduction young).service_id
            g'.registry.identities)
        ≡ true)
    × ((target : ℕ) × (find_target
            (identity world 4 identify_message introduction young).service_id
            g'.active_connections
          ≡ some target)
        × FirstServing
            (identity world 4 identify_message introduction young).service_id
            target
            g'.active_connections)
    × (g'.sent
        ≡ young.sent
          ++ (4, acknowledgement (identity world 4 identify_message introduction young)) ∷ [])
handle_identify_message-new_example =
    handle_identify_message-new world 4 identify_message introduction young connection has_identity
      active refl has_id has_name unknown_id

receive_all-concat_example :
    receive_all [] ((123 ∷ []) ∷ (125 ∷ 10 ∷ 49 ∷ []) ∷ [])
    ≡ receive [] (concat ((123 ∷ []) ∷ (125 ∷ 10 ∷ 49 ∷ []) ∷ []))
receive_all-concat_example = receive_all-concat ((123 ∷ []) ∷ (125 ∷ 10 ∷ 49 ∷ []) ∷ [])

abbrev payload : Json ℕ
payload = object []

sent_id : (send_request world "echo" payload least_loaded gateway).0 ≡ "req_2"
unfolding send_request select_best_service choose find_available_services keep_if range resolve
    lookup is_healthy is_overloaded lb_strategy_for for_capability get_load_percentage
    generate_request_id send_message request_id_of to_string
sent_id = refl

was_sent : (send_request world "echo" payload least_loaded gateway).0 ≢ ""
was_sent e = cc (sym sent_id, e)

send_request-InFlight_example :
    let (id, g') = send_request world "echo" payload least_loaded gateway in
    Delivered world
      (new_request world id
        (chosen world "echo" payload least_loaded gateway).0
        (resolved world "echo" payload least_loaded gateway)
        payload
        none)
      payload
      gateway
      g'
send_request-InFlight_example =
    send_request-InFlight world "echo" payload least_loaded gateway was_sent

other_id : (request_id_of 2 == "req_1") ≡ false
unfolding request_id_of to_string
other_id = refl

invoke_ok : (invoke world 4 "a-1" "echo" payload gateway).0 ≡ true
unfolding invoke select_best_service choose find_available_services keep_if range resolve lookup
    is_healthy is_overloaded lb_strategy_for for_capability get_load_percentage send_message
invoke_ok = refl

-- The service is registered, but its connection is gone.
abbrev unconnected : Gateway ℕ
unconnected = record gateway { active_connections = [] }

unreachable :
    find_target
      (invoke_target world 4 "a-1" "echo" payload unconnected).0
      unconnected.active_connections
    ≡ none
unfolding find_target
unreachable = refl

invoke-unanswered_example :
    let (ok, g') = invoke world 4 "a-1" "echo" payload unconnected in
    (ok ≡ false)
    × (g'.sent ≡ (
        if (invoke_target world 4 "a-1" "echo" payload unconnected).0 == ""
        then unconnected.sent
          ++ (4, no_service "a-1" (invoke_capability world 4 "a-1" "echo" payload unconnected)) ∷ []
        else unconnected.sent))
invoke-unanswered_example = invoke-unanswered world 4 "a-1" "echo" payload unconnected unreachable

abbrev next_response : Json ℕ
next_response = object (("type", str "RESPONSE") ∷ ("requestId", str "req_2") ∷ [])

abbrev later_world : World naturals
later_world = record world { now = 9 }

named_as_sent :
    get_string next_response "requestId"
    ≡ some (send_request world "echo" payload least_loaded gateway).0
unfolding get_string
named_as_sent = ap some (sym sent_id)

finish_wait-send_request_example :
    let (id, sent) = send_request world "echo" payload least_loaded gateway in
    let (result, g') =
      finish_wait 9 id (handle_response_message later_world next_response (begin_wait id sent)).1 in
    (result
      ≡ answered 9 later_world.render next_response
          (sent_request world later_world "echo" payload next_response least_loaded gateway))
    × (lookup id g'.pending_requests ≡ none)
    × (lookup id g'.response_waiters ≡ none)
finish_wait-send_request_example =
    finish_wait-send_request world later_world "echo" payload next_response least_loaded gateway
      was_sent named_as_sent

-- Before any request.
abbrev idle : Gateway ℕ
idle = record gateway { pending_requests = [] }

one_step : Reached naturals (send_request world "echo" payload least_loaded idle).1
one_step =
    Reached.step (Reached.start idle refl) (Step.sends world "echo" payload least_loaded refl)

Reached-Slotted_example : Slotted naturals (send_request world "echo" payload least_loaded idle).1
Reached-Slotted_example = Reached-Slotted naturals one_step

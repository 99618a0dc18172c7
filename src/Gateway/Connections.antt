-- ===== src/Gateway/Connections.antt =====
-- Connections, the messages of clients, IDENTIFY and PING, and the loss of a connection, of
-- src/service_broker/Services/ServiceGateway.cpp.
use rdws_us.Prelude.{
  ℕ, ◌/◌, String, Bool, true, false, not, ◌&&◌, ◌||◌, Option, none, some, List, [], ◌∷◌, ◌++◌, ◌==◌,
  if◌then◌else◌, eqb,
}
use rdws_us.Prelude.Int.{pos}
use rdws_us.Prelude.Floats.{Floats}
use rdws_us.Prelude.Run.{Run, done, ◌>>=◌}
use rdws_us.Prelude.Table.{Table, text_key, number_key, lookup, insert, erase}
use rdws_us.Json.{Json, int, str, object, get_string, get_uint, get_object}
use rdws_us.Identity.{ServiceIdentity, from_json}
use rdws_us.Registry.{
  ServiceRegistry, register_service, unregister_service, remove_unhealthy_services,
}
use rdws_us.Registry.Queries.{update_current_load, ping_service}
use rdws_us.Gateway.Types.{
  ClientConnection, PendingRequest, Gateway, World, failed, is_terminal, nanos_per_milli,
  send_message, publish_event,
}
use rdws_us.Gateway.Requests.{handle_invoke_message}
use rdws_us.Gateway.Responses.{handle_response_message}
use rdws_us.Gateway.Waiting.{cleanup_expired_requests}

-- A reader's accumulator over bytes: complete lines, and the rest.
unfoldable pub lines_from : List ℕ → List ℕ → List (List ℕ) × List ℕ
lines_from line [] = ([], line)
lines_from line (b ∷ bytes) =
    let ended = lines_from [] bytes in
    let longer = lines_from (line ++ b ∷ []) bytes in
    if eqb b 10 then (line ∷ ended.0, ended.1) else longer

-- An empty line is no message.
unfoldable pub messages_of : List (List ℕ) → List (List ℕ)
messages_of [] = []
messages_of ([] ∷ lines) = messages_of lines
messages_of ((b ∷ line) ∷ lines) = (b ∷ line) ∷ messages_of lines

-- What one recv() adds: the messages to handle, and the new accumulator.
unfoldable pub receive : List ℕ → List ℕ → List (List ℕ) × List ℕ
unfolding lines_from messages_of
receive accumulator bytes =
    let result = lines_from [] (accumulator ++ bytes) in (messages_of result.0, result.1)

-- The chunks of recv(), one after the other.
unfoldable pub receive_all : List ℕ → List (List ℕ) → List (List ℕ) × List ℕ
unfolding receive
receive_all accumulator [] = ([], accumulator)
receive_all accumulator (chunk ∷ chunks) =
    let (messages, rest) = receive accumulator chunk in
    let (later, last) = receive_all rest chunks in (messages ++ later, last)

-- Requests that were routed to a service that is gone.
abbrev pub fail_request : String → PendingRequest → PendingRequest
fail_request service p =
    if p.target_service_id == service && not (is_terminal p.state)
    then record p { state = failed; status_code = pos 503; error_message = "Service disconnected" }
    else p

unfoldable pub fail_all : String → Table String PendingRequest → Table String PendingRequest
fail_all service [] = []
fail_all service ((id, p) ∷ m) = (id, fail_request service p) ∷ fail_all service m

-- The service of a connection: "" where there is none.
abbrev pub service_of : Option ClientConnection → String
service_of none = ""
service_of (some conn) = if conn.identified then conn.service_id else ""

module _ {D : Type 0} where
  unfoldable pub handle_new_connection : ℕ → ℕ → String → String → Gateway D → Gateway D
  handle_new_connection now fd address type g = record g {
    active_connections =
        insert fd
          (record {
            address = address;
            connection_type = type;
            service_id = "";
            identified = false;
            connected_at = now;
          })
          g.active_connections;
  }

  abbrev pub acknowledgement : ServiceIdentity → Json D
  acknowledgement s = object (
      ("type", str "ACKNOWLEDGED")
      ∷ ("serviceId", str s.service_id)
      ∷ ("status", str "registered")
      ∷ [])

  abbrev pub connected_event : ServiceIdentity → Json D
  connected_event s = object (
      ("serviceId", str s.service_id)
      ∷ ("serviceName", str s.service_name)
      ∷ ("address", str s.client_address)
      ∷ [])

  -- The connection takes the id, and the identity the connection's type and address.
  unfoldable pub attach : ℕ → ServiceIdentity → Gateway D → ServiceIdentity × Gateway D
  attach fd s g = elim (lookup fd g.active_connections) [
    | none ↦ (s, g)
    | some conn ↦ (
      record s { connection_type = conn.connection_type; client_address = conn.address },
      record g {
        active_connections =
            insert fd (record conn { service_id = s.service_id; identified = true })
              g.active_connections;
      },
    )
  ]

  abbrev pub with_registry : ServiceRegistry → Gateway D → Gateway D
  with_registry r g = record g { registry = r }

  -- closeConnection: the registry first, then the connection, then the requests.
  abbrev pub forget : ℕ → Gateway D → Gateway D
  forget fd g = record g { active_connections = erase fd g.active_connections }

  abbrev pub disconnected_event : String → Json D
  disconnected_event service = object (("serviceId", str service) ∷ [])

  unfoldable pub close_connection : ℕ → Gateway D → Run (Gateway D)
  unfolding fail_all
  close_connection fd g =
      let service = service_of (lookup fd g.active_connections) in
      if service == ""
      then done (forget fd g)
      else unregister_service service g.registry >>= λ p. done (
          let g' =
            publish_event "service.disconnected" (disconnected_event service)
              (forget fd (with_registry p.1 g)) in
          record g' { pending_requests = fail_all service g'.pending_requests })

  unfoldable pub perform_health_check : ℕ → Gateway D → Run (Gateway D)
  perform_health_check now g =
      remove_unhealthy_services 60 now g.registry >>= λ p. done (with_registry p.1 g)

  -- One round of the health checker's thread.
  unfoldable pub health_round : ℕ → Gateway D → Run (Gateway D)
  unfolding perform_health_check
  health_round now g = perform_health_check now g >>= λ g'. done (cleanup_expired_requests now g')

abbrev pong : {D : Type 0} → ℕ → Json D
pong now = object (("type", str "PONG") ∷ ("timestamp", int (pos (now / nanos_per_milli))) ∷ [])

abbrev after_load : {D : Type 0} → String → Option (Json D) → ServiceRegistry → ServiceRegistry
after_load service none r = r
after_load service (some stats) r = elim (get_uint stats "currentLoad") [
  | none ↦ r
  | some load ↦ update_current_load service load r
]

module _ {F : Floats} where
  unfoldable pub identify : World F → ℕ → ServiceIdentity → Gateway F.D → Run (Bool × Gateway F.D)
  unfolding attach
  identify w fd s g =
      let (s', g₁) = attach fd s g in
      register_service s' g₁.registry >>= λ p.
      if p.0
      then done (
        true,
        publish_event "service.connected" (connected_event s')
            (send_message w fd (acknowledgement s') (with_registry p.1 g₁)).1,
      )
      else done (false, with_registry p.1 g₁)

  unfoldable pub handle_identify_message :
      World F → ℕ → Json F.D → Gateway F.D → Run (Bool × Gateway F.D)
  unfolding identify
  handle_identify_message w fd message g = elim (get_object message "identity") [
    | none ↦ done (false, g)
    | some o ↦
        let s = from_json w.now o in
        if s.service_id == "" || s.service_name == "" then done (false, g) else identify w fd s g
  ]

  unfoldable pub handle_ping_message : World F → ℕ → Json F.D → Gateway F.D → Bool × Gateway F.D
  handle_ping_message w fd message g =
      let service = service_of (lookup fd g.active_connections) in
      if service == ""
      then (false, g)
      else send_message w fd (pong w.now) (
          with_registry
            (ping_service w.now service
              (after_load service (get_object message "stats") g.registry))
            g)

  -- The message by its type; one that is no object, or of no known type, changes nothing.
  unfoldable pub handle_client_message :
      World F → ℕ → Option (Json F.D) → Gateway F.D → Run (Gateway F.D)
  handle_client_message w fd none g = done g
  handle_client_message w fd (some message) g = elim (get_string message "type") [
    | none ↦ done g
    | some type ↦
        if type == "IDENTIFY"
        then (handle_identify_message w fd message g >>= λ p. done p.1)
        else if type == "PING"
        then done (handle_ping_message w fd message g).1
        else if type == "RESPONSE"
        then done (handle_response_message w message g).1
        else if type == "INVOKE"
        then done (handle_invoke_message w fd message g).1
        else done g
  ]

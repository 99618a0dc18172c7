-- ===== src/Gateway/Types.antt =====
-- The types of src/service_broker/Services/ServiceGateway.h, and the steps that handlers share.
use Prim.Native.String
use rdws_us.Prelude.{ℕ, ◌*◌, ◌+◌, ◌%◌, ◌^◌, String, Bool, true, false, Option, List, [], ◌∷◌, ◌++◌}
use rdws_us.Prelude.Int.{ℤ, pos}
use rdws_us.Prelude.Floats.{Floats}
use rdws_us.Prelude.Table.{Table, text_key, number_key, insert}
use rdws_us.Json.{Json}
use rdws_us.Registry.{ServiceRegistry}
use rdws_us.Config.{GatewayConfig}
use rdws_us.Router.{EventRouter, to_string}
use rdws_us.Bus.{EventBus, publish}

pub data RequestState : Type 0 where
  queued in_flight completed failed timed_out : RequestState

pub record ClientConnection : Type 0 where
  pub address : String
  pub connection_type : String
  pub service_id : String
  pub identified : Bool
  pub connected_at : ℕ

-- `originator_fd` is `none` where the source has -1. Times are in nanoseconds.
pub record PendingRequest : Type 0 where
  pub request_id : String
  pub target_service_id : String
  pub capability : String
  pub request_payload : String
  pub response_payload : String
  pub error_message : String
  pub state : RequestState
  pub status_code : ℤ
  pub timeout : ℕ
  pub created_at : ℕ
  pub updated_at : ℕ
  pub originator_fd : Option ℕ

pub record Gateway (D : Type 0) : Type 0 where
  pub tcp_port : ℕ
  pub unix_socket_path : String
  pub running : Bool
  pub registry : ServiceRegistry
  pub active_connections : Table ℕ ClientConnection
  pub pending_requests : Table String PendingRequest
  pub request_id_counter : ℕ
  -- The request ids with a thread in waitForResponse.
  pub response_waiters : Table String (Unit {0})
  pub router : EventRouter D
  pub bus : EventBus D
  pub config : GatewayConfig D
  -- Every message that was handed to send(), with its descriptor, the oldest first.
  pub sent : List (ℕ × Json D)

-- What a call meets outside the gateway: the time, whether a descriptor takes a whole message, the
-- random draw of load balancing, and the JSON writer.
pub record World (F : Floats) : Type 0 where
  pub now : ℕ
  pub accepts : ℕ → Bool
  pub draw : ℕ → ℕ
  pub render : Json F.D → String

abbrev pub nanos_per_milli : ℕ
nanos_per_milli = 1000000

abbrev pub default_timeout : ℕ
default_timeout = 30000 * nanos_per_milli

unfoldable pub is_terminal : RequestState → Bool
is_terminal queued = false
is_terminal in_flight = false
is_terminal completed = true
is_terminal failed = true
is_terminal timed_out = true

unfoldable pub is_queued : RequestState → Bool
is_queued queued = true
is_queued _ = false

unfoldable pub request_state_to_string : RequestState → String
request_state_to_string queued = "queued"
request_state_to_string in_flight = "in_flight"
request_state_to_string completed = "completed"
request_state_to_string failed = "failed"
request_state_to_string timed_out = "timed_out"

unfoldable pub request_id_of : ℕ → String
request_id_of n = String.◌++◌ "req_" (to_string (pos n))

unfoldable pub send_message :
    {F : Floats} → World F → ℕ → Json F.D → Gateway F.D → Bool × Gateway F.D
send_message w fd message g = (w.accepts fd, record g { sent = g.sent ++ (fd, message) ∷ [] })

module _ {D : Type 0} where
  abbrev pub put_request : PendingRequest → Gateway D → Gateway D
  put_request p g = record g { pending_requests = insert p.request_id p g.pending_requests }

  unfoldable pub generate_request_id : Gateway D → String × Gateway D
  generate_request_id g = (
    request_id_of g.request_id_counter,
    record g { request_id_counter = (g.request_id_counter + 1) % 2 ^ 64 },
  )

  abbrev pub publish_event : String → Json D → Gateway D → Gateway D
  publish_event topic payload g = record g { bus = publish topic payload g.bus }

-- ===== src/Tests/Data.antt =====
-- A machine's numbers, two services, and a gateway that they are connected to.
use rdws_us.Prelude.{ℕ, ◌*◌, ◌+◌, ◌/◌, true, false, none, some, [], ◌∷◌, ◌≡◌, arith, ltb}
use rdws_us.Prelude.Int.{ℤ, pos, negsuc}
use rdws_us.Prelude.Floats.{Floats}
use rdws_us.Json.{Json, str, int, object}
use rdws_us.Identity.{ServiceIdentity}
use rdws_us.Registry.{ServiceRegistry, least_loaded}
use rdws_us.Config.{GatewayConfig, CapabilityConfig}
use rdws_us.Router.{EventRouter}
use rdws_us.Bus.{EventBus}
use rdws_us.Gateway.Types.{
  ClientConnection, PendingRequest, Gateway, World, in_flight, default_timeout,
}

abbrev whole : ℤ → ℕ
whole (pos n) = n
whole (negsuc n) = 0

pub ltb_trans : (x y z : ℕ) → ltb x y ≡ true → ltb y z ≡ true → ltb x z ≡ true
ltb_trans x y z h k = ground arith

pub ltb_irrefl : (x : ℕ) → ltb x x ≡ false
ltb_irrefl x = ground arith

-- Whole numbers in the place of double.
abbrev pub naturals : Floats
naturals = record {
  D = ℕ;
  of_int = whole;
  lit = λ m e. m;
  add = λ x y. x + y;
  mul = λ x y. x * y;
  div = λ x y. x / y;
  trunc = pos;
  lt = ltb;
  show = λ x. "0";
  lt_irrefl = ltb_irrefl;
  lt_trans = ltb_trans;
}

abbrev pub echo : ServiceIdentity
echo = record {
  machine_name = "m1";
  service_name = "echo";
  service_id = "echo-1";
  version = "1.0";
  capabilities = "echo" ∷ [];
  environment = "test";
  max_concurrent = 10;
  avg_response_time = pos 100;
  connection_type = "tcp";
  client_address = "local";
  connected_at = 0;
  current_load = 1;
  total_requests = 0;
  error_count = 0;
  last_ping = 0;
}

abbrev pub one_service : ServiceRegistry
one_service = record {
  identities = ("echo-1", echo) ∷ [];
  capability_index = ("echo", "echo-1") ∷ [];
  machine_index = ("m1", "echo-1" ∷ []) ∷ [];
  environment_index = ("test", "echo-1" ∷ []) ∷ [];
  round_robin_counters = [];
  locked = false;
}

abbrev pub defaults : CapabilityConfig
defaults = record {
  timeout_ms = pos 30000;
  load_balancing = some least_loaded;
  max_concurrent_requests = pos 0;
}

abbrev pub config : GatewayConfig ℕ
config = record {
  defaults = defaults;
  capabilities =
      (
        "echo",
        record { timeout_ms = pos 500; load_balancing = none; max_concurrent_requests = pos 4 },
      )
      ∷ [];
  features = ("metrics_collection", true) ∷ [];
  persist_path = "gateway.json";
  file = none;
}

abbrev pub connection : ClientConnection
connection = record {
  address = "local";
  connection_type = "tcp";
  service_id = "echo-1";
  identified = true;
  connected_at = 0;
}

abbrev pub pending : PendingRequest
pending = record {
  request_id = "req_1";
  target_service_id = "echo-1";
  capability = "echo";
  request_payload = "{}";
  response_payload = "";
  error_message = "";
  state = in_flight;
  status_code = pos 202;
  timeout = default_timeout;
  created_at = 0;
  updated_at = 0;
  originator_fd = none;
}

abbrev pub empty_router : EventRouter ℕ
empty_router = record { persist_path = ""; rules = []; file = none }

abbrev pub bus : EventBus ℕ
bus = record {
  subscriptions = record { id = "s1"; topic = "a" } ∷ record { id = "s2"; topic = "*" } ∷ [];
  event_queue = record { topic = "b"; payload = int (pos 1) } ∷ [];
  running = true;
}

abbrev pub gateway : Gateway ℕ
gateway = record {
  tcp_port = 9000;
  unix_socket_path = "/tmp/gateway.sock";
  running = true;
  registry = one_service;
  active_connections = (4, connection) ∷ [];
  pending_requests = ("req_1", pending) ∷ [];
  request_id_counter = 2;
  response_waiters = [];
  router = empty_router;
  bus = bus;
  config = config;
  sent = [];
}

abbrev pub world : World naturals
world = record { now = 5; accepts = λ fd. true; draw = λ n. 0; render = λ v. "{}" }

abbrev pub response : Json ℕ
response = object (("type", str "RESPONSE") ∷ ("requestId", str "req_1") ∷ [])

-- ===== src/Identity.antt =====
-- src/service_broker/Services/ServiceIdentity.h and ServiceIdentity.cpp. Time points are
-- nanoseconds of the steady clock, and the current time is an argument.
use rdws_us.Prelude.{
  ℕ, ◌-◌, ◌/◌, String, Bool, List, [], ◌∷◌, map, leb, eqb, if◌then◌else◌, value_or, any_of, ◌==◌,
}
use rdws_us.Prelude.Int.{ℤ, pos, to_u32}
use rdws_us.Prelude.Floats.{Floats}
use rdws_us.Json.{Json, int, str, arr, of_elems, object, get_string, get_int, get_array}

pub record ServiceIdentity : Type 0 where
  pub machine_name : String
  pub service_name : String
  pub service_id : String
  pub version : String
  pub capabilities : List String
  pub environment : String
  pub max_concurrent : ℕ
  pub avg_response_time : ℤ
  pub connection_type : String
  pub client_address : String
  pub connected_at : ℕ
  pub current_load : ℕ
  pub total_requests : ℕ
  pub error_count : ℕ
  pub last_ping : ℕ

abbrev pub nanos_per_second : ℕ
nanos_per_second = 1000000000

strings_of : {D : Type 0} → List (Json D) → List String
strings_of [] = []
strings_of (str s ∷ vs) = s ∷ strings_of vs
strings_of (_ ∷ vs) = strings_of vs

-- duration_cast<seconds>(t.time_since_epoch()).count()
abbrev epoch_seconds : ℕ → ℤ
epoch_seconds t = pos (t / nanos_per_second)

module _ {D : Type 0} where
  unfoldable pub to_json_value : ServiceIdentity → Json D
  to_json_value s = object (
      ("machineName", str s.machine_name)
      ∷ ("serviceName", str s.service_name)
      ∷ ("serviceId", str s.service_id)
      ∷ ("version", str s.version)
      ∷ ("environment", str s.environment)
      ∷ ("maxConcurrent", int (pos s.max_concurrent))
      ∷ ("connectionType", str s.connection_type)
      ∷ ("clientAddress", str s.client_address)
      ∷ ("currentLoad", int (pos s.current_load))
      ∷ ("totalRequests", int (pos s.total_requests))
      ∷ ("errorCount", int (pos s.error_count))
      ∷ ("avgResponseTimeMs", int s.avg_response_time)
      ∷ ("capabilities", arr (of_elems (map str s.capabilities)))
      ∷ ("connectedAt", int (epoch_seconds s.connected_at))
      ∷ ("lastPing", int (epoch_seconds s.last_ping))
      ∷ [])

  -- `connectedAt` and `lastPing` keep their initialiser, the current time.
  unfoldable pub from_json : ℕ → Json D → ServiceIdentity
  unfolding strings_of
  from_json now json = record {
    machine_name = value_or (get_string json "machineName") "";
    service_name = value_or (get_string json "serviceName") "";
    service_id = value_or (get_string json "serviceId") "";
    version = value_or (get_string json "version") "";
    capabilities = strings_of (value_or (get_array json "capabilities") []);
    environment = value_or (get_string json "environment") "dev";
    max_concurrent = to_u32 (value_or (get_int json "maxConcurrent") (pos 10));
    avg_response_time = value_or (get_int json "avgResponseTimeMs") (pos 0);
    connection_type = value_or (get_string json "connectionType") "";
    client_address = value_or (get_string json "clientAddress") "";
    connected_at = now;
    current_load = to_u32 (value_or (get_int json "currentLoad") (pos 0));
    total_requests = to_u32 (value_or (get_int json "totalRequests") (pos 0));
    error_count = to_u32 (value_or (get_int json "errorCount") (pos 0));
    last_ping = now;
  }

unfoldable pub has_capability : ServiceIdentity → String → Bool
has_capability s capability = any_of (λ c. c == capability) s.capabilities

-- currentLoad / maxConcurrent * 100.0, and 0.0 where nothing may run.
unfoldable pub get_load_percentage : (F : Floats) → ServiceIdentity → F.D
get_load_percentage F s =
    if eqb s.max_concurrent 0
    then F.lit 0 0
    else F.mul (F.div (F.of_int (pos s.current_load)) (F.of_int (pos s.max_concurrent)))
        (F.lit 100 0)

unfoldable pub is_overloaded : ServiceIdentity → Bool
is_overloaded s = leb s.max_concurrent s.current_load

unfoldable pub get_uptime : ℕ → ServiceIdentity → ℕ
get_uptime now s = (now - s.connected_at) / nanos_per_second

-- The timeout is in seconds. A ping that lies ahead of `now` is recent.
unfoldable pub is_healthy : ℕ → ℕ → ServiceIdentity → Bool
is_healthy timeout now s = leb ((now - s.last_ping) / nanos_per_second) timeout

-- ===== src/Registry/Queries.antt =====
-- The members of src/service_broker/Services/ServiceRegistry.cpp that read the registry, and those
-- that record what a service reports.
use rdws_us.Prelude.{
  ℕ, ◌+◌, ◌%◌, ◌^◌, String, Bool, false, not, ◌&&◌, Option, none, some, List, [], ◌∷◌, map, ◌==◌,
  eqb, if◌then◌else◌, length, keep_if,
}
use rdws_us.Prelude.Int.{ℤ, pos}
use rdws_us.Prelude.Floats.{Floats}
use rdws_us.Prelude.Table.{text_key, lookup, insert}
use rdws_us.Json.{Json, int, arr, of_elems, object}
use rdws_us.Identity.{ServiceIdentity, is_overloaded, is_healthy, to_json_value}
use rdws_us.Registry.{ServiceRegistry, ids_where, ids_at}

unfoldable pub find_service_by_id : String → ServiceRegistry → Option ServiceIdentity
find_service_by_id id r = lookup id r.identities

-- equal_range of the multimap
unfoldable pub range : String → List (String × String) → List String
range capability [] = []
range capability ((c, id) ∷ index) =
    if c == capability then id ∷ range capability index else range capability index

unfoldable pub find_services_by_capability : String → ServiceRegistry → List String
find_services_by_capability capability r = range capability r.capability_index

unfoldable pub find_services_by_machine : String → ServiceRegistry → List String
find_services_by_machine machine r = ids_at machine r.machine_index

unfoldable pub find_services_by_environment : String → ServiceRegistry → List String
find_services_by_environment environment r = ids_at environment r.environment_index

unfoldable pub find_services_by_name : String → ServiceRegistry → List String
find_services_by_name name r = ids_where (λ s. s.service_name == name) r.identities

unfoldable pub find_services : (ServiceIdentity → Bool) → ServiceRegistry → List String
find_services predicate r = ids_where predicate r.identities

-- The default timeout of isHealthy is 60 seconds.
unfoldable pub find_healthy_services : ℕ → ServiceRegistry → List String
find_healthy_services now = find_services (is_healthy 60 now)

abbrev pub is_available : ℕ → Option ServiceIdentity → Bool
is_available now none = false
is_available now (some s) = is_healthy 60 now s && not (is_overloaded s)

unfoldable pub find_available_services : ℕ → String → ServiceRegistry → List String
find_available_services now capability r =
    keep_if (λ id. is_available now (lookup id r.identities)) (range capability r.capability_index)

unfoldable pub get_service_count : ServiceRegistry → ℕ
get_service_count r = length r.identities

unfoldable pub get_healthy_service_count : ℕ → ServiceRegistry → ℕ
get_healthy_service_count now r = length (find_healthy_services now r)

unfoldable pub get_all_service_ids : ServiceRegistry → List String
get_all_service_ids r = map (λ e. e.0) r.identities

unfoldable pub get_all_services : ServiceRegistry → List ServiceIdentity
get_all_services r = map (λ e. e.1) r.identities

unfoldable pub get_registry_status : {D : Type 0} → ℕ → ServiceRegistry → Json D
get_registry_status now r = object (
    ("totalServices", int (pos (get_service_count r)))
    ∷ ("healthyServices", int (pos (length (ids_where (is_healthy 60 now) r.identities))))
    ∷ ("services", arr (of_elems (map to_json_value (get_all_services r))))
    ∷ [])

-- `if (it != end()) it->second... = ...`
abbrev pub modify : (ServiceIdentity → ServiceIdentity) → String → ServiceRegistry → ServiceRegistry
modify change id r = elim (lookup id r.identities) [
  | none ↦ r
  | some s ↦ record r { identities = insert id (change s) r.identities }
]

unfoldable pub update_current_load : String → ℕ → ServiceRegistry → ServiceRegistry
update_current_load id load = modify (λ s. record s { current_load = load }) id

unfoldable pub ping_service : ℕ → String → ServiceRegistry → ServiceRegistry
ping_service now = modify (λ s. record s { last_ping = now })

-- uint32_t counters wrap.
unfoldable pub record_service_error : String → ServiceRegistry → ServiceRegistry
record_service_error = modify (λ s. record s { error_count = (s.error_count + 1) % 2 ^ 32 })

-- Exponential weighted moving average with α = 0.1, after the first request.
abbrev pub average : (F : Floats) → ℕ → ℤ → ℤ → ℤ
average F total old response =
    if eqb total 1
    then response
    else F.trunc (F.add (F.mul (F.of_int old) (F.lit 9 1)) (F.mul (F.of_int response) (F.lit 1 1)))

abbrev pub after_response : (F : Floats) → ℤ → ServiceIdentity → ServiceIdentity
after_response F response s =
    let total = (s.total_requests + 1) % 2 ^ 32 in
    record s {
      total_requests = total;
      avg_response_time = average F total s.avg_response_time response;
    }

unfoldable pub record_response_time : Floats → String → ℤ → ServiceRegistry → ServiceRegistry
record_response_time F id response = modify (after_response F response) id

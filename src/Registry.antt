-- ===== src/Registry.antt =====
-- src/service_broker/Services/ServiceRegistry.h and ServiceRegistry.cpp. `registryMutex` is a plain
-- std::mutex: a member that takes it while its own thread holds it never goes on. A member that
-- takes it once, and calls no member that takes it, is written without it.
pub mod Locking
pub mod Index
pub mod Sound
pub mod History
pub mod Queries
pub mod Select
pub mod Lowest
pub mod Balance
use rdws_us.Prelude.{
  ℕ, zero, suc, ◌+◌, ◌*◌, ◌%◌, ◌^◌, String, Bool, true, false, not, ◌&&◌, Option, none, some, List,
  [], ◌∷◌, ◌++◌, map, ◌==◌, eqb, ltb, if◌then◌else◌, is_some, value_or, length, get_or, erase_if,
  keep_if,
}
use rdws_us.Prelude.Int.{ℤ, pos, ltb_ℤ}
use rdws_us.Prelude.Floats.{Floats}
use rdws_us.Prelude.Run.{Run, done, blocked, ◌>>=◌}
use rdws_us.Prelude.Table.{Table, text_key, lookup, insert, erase}
use rdws_us.Identity.{ServiceIdentity, get_load_percentage, is_overloaded, is_healthy}

pub data LoadBalancingStrategy : Type 0 where
  round_robin least_loaded fastest_response random : LoadBalancingStrategy

pub record ServiceRegistry : Type 0 where
  pub identities : Table String ServiceIdentity
  -- The multimap: the pairs of one capability stand in the order of their insertion.
  pub capability_index : List (String × String)
  pub machine_index : Table String (List String)
  pub environment_index : Table String (List String)
  pub round_robin_counters : Table String ℕ
  -- Whether the calling thread holds `registryMutex`.
  pub locked : Bool

abbrev pub empty_registry : ServiceRegistry
empty_registry = record {
  identities = [];
  capability_index = [];
  machine_index = [];
  environment_index = [];
  round_robin_counters = [];
  locked = false;
}

-- std::scoped_lock lock(registryMutex), round the rest of a member.
unlock {ℓ} : {A : Type ℓ} → A × ServiceRegistry → Run (A × ServiceRegistry)
unlock (a, r) = done (a, record r { locked = false })

unfoldable pub locking {ℓ} :
    {A : Type ℓ}
    → (ServiceRegistry → Run (A × ServiceRegistry))
    → ServiceRegistry
    → Run (A × ServiceRegistry)
unfolding unlock
locking body r = if r.locked then blocked else (body (record r { locked = true }) >>= unlock)

-- capabilityIndex.insert for each capability
unfoldable pub add_capabilities :
    List String → String → List (String × String) → List (String × String)
add_capabilities [] id index = index
add_capabilities (capability ∷ rest) id index =
    add_capabilities rest id (index ++ (capability, id) ∷ [])

-- The first pair of that capability and service goes.
unfoldable pub erase_pair : String → String → List (String × String) → List (String × String)
erase_pair capability id [] = []
erase_pair capability id ((c, s) ∷ index) =
    if (c == capability) && (s == id) then index else (c, s) ∷ erase_pair capability id index

unfoldable pub remove_capabilities :
    List String → String → List (String × String) → List (String × String)
remove_capabilities [] id index = index
remove_capabilities (capability ∷ rest) id index =
    remove_capabilities rest id (erase_pair capability id index)

-- index[name] makes an empty vector where there is none.
abbrev pub ids_at : String → Table String (List String) → List String
ids_at name index = value_or (lookup name index) []

unfoldable pub add_to_indexes : ServiceIdentity → ServiceRegistry → ServiceRegistry
add_to_indexes s r = record r {
  capability_index = add_capabilities s.capabilities s.service_id r.capability_index;
  machine_index =
      insert s.machine_name (ids_at s.machine_name r.machine_index ++ s.service_id ∷ [])
        r.machine_index;
  environment_index =
      insert s.environment (ids_at s.environment r.environment_index ++ s.service_id ∷ [])
        r.environment_index;
}

unfoldable pub remove_from_indexes : ServiceIdentity → ServiceRegistry → ServiceRegistry
remove_from_indexes s r = record r {
  capability_index = remove_capabilities s.capabilities s.service_id r.capability_index;
  machine_index =
      insert s.machine_name
        (erase_if (λ id. id == s.service_id) (ids_at s.machine_name r.machine_index))
        r.machine_index;
  environment_index =
      insert s.environment
        (erase_if (λ id. id == s.service_id) (ids_at s.environment r.environment_index))
        r.environment_index;
}

abbrev pub store_identity : ServiceIdentity → ServiceRegistry → ServiceRegistry
store_identity s r = record r { identities = insert s.service_id s r.identities }

unfoldable pub replace_service :
    Option ServiceIdentity → ServiceIdentity → ServiceRegistry → Run (Bool × ServiceRegistry)
replace_service none s r = done (false, r)
replace_service (some old) s r =
    done (true, add_to_indexes s (store_identity s (remove_from_indexes old r)))

unfoldable pub update_service : ServiceIdentity → ServiceRegistry → Run (Bool × ServiceRegistry)
unfolding replace_service locking
update_service s = locking (λ r. replace_service (lookup s.service_id r.identities) s r)

unfoldable pub register_service : ServiceIdentity → ServiceRegistry → Run (Bool × ServiceRegistry)
unfolding locking
register_service s = locking (λ r.
    if s.service_id == ""
    then done (false, r)
    else if is_some (lookup s.service_id r.identities)
    then update_service s r
    else done (true, add_to_indexes s (store_identity s r)))

unfoldable pub drop_service :
    Option ServiceIdentity → String → ServiceRegistry → Run (Bool × ServiceRegistry)
drop_service none id r = done (false, r)
drop_service (some old) id r =
    let r' = remove_from_indexes old r in
    done (true, record r' { identities = erase id r'.identities })

unfoldable pub unregister_service : String → ServiceRegistry → Run (Bool × ServiceRegistry)
unfolding drop_service locking
unregister_service id = locking (λ r. drop_service (lookup id r.identities) id r)

-- The loop over `toRemove`.
unfoldable pub unregister_all : List String → ServiceRegistry → Run (Unit {0} × ServiceRegistry)
unregister_all [] r = done (tt, r)
unregister_all (id ∷ ids) r = unregister_service id r >>= λ p. unregister_all ids p.1

unfoldable pub ids_where : (ServiceIdentity → Bool) → Table String ServiceIdentity → List String
ids_where predicate [] = []
ids_where predicate ((id, s) ∷ m) =
    if predicate s then id ∷ ids_where predicate m else ids_where predicate m

unfoldable pub remove_unhealthy_services :
    ℕ → ℕ → ServiceRegistry → Run (Unit {0} × ServiceRegistry)
unfolding locking unregister_all
remove_unhealthy_services timeout now =
    locking (λ r. unregister_all (ids_where (λ s. not (is_healthy timeout now s)) r.identities) r)

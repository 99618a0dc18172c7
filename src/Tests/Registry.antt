-- ===== src/Tests/Registry.antt =====
-- A registry with one service.
use native.Mathlib.Nat.{div-eq_of_lt}
use rdws_us.Prelude.{
  ℕ, ◌<◌, ◌^◌, ◌≢◌, String, false, true, none, some, [], ◌∷◌, ◌≡◌, ◌⊎◌, refl, sym, arith, ◌==◌,
  if◌then◌else◌, is_some, keep_if, subst, Bool-cases, inl, inr,
}
use rdws_us.Prelude.Int.{pos, ltb_ℤ}
use rdws_us.Prelude.Run.{done, blocked}
use rdws_us.Prelude.Table.{text_key, lookup, insert}
use rdws_us.Identity.{ServiceIdentity, is_healthy, is_overloaded}
use rdws_us.Registry.{
  empty_registry, register_service, add_to_indexes, add_capabilities, store_identity, least_loaded,
}
use rdws_us.Registry.Queries.{find_available_services, range}
use rdws_us.Registry.Select.{select_best_service, max_milliseconds}
use rdws_us.Registry.Index.{IsIndexed}
use rdws_us.Registry.Sound.{IsSound}
use rdws_us.Registry.History.{Call, History, History-IsSound}
use rdws_us.Registry.Locking.{register_service_cases}
use rdws_us.Registry.Balance.{
  Serves, NoneLighter, select_best_service-Serves, select_best_service-NoneLighter,
}
use rdws_us.Tests.Data.{echo, one_service, naturals}

registers_echo : register_service echo empty_registry ≡ done (true, one_service)
unfolding register_service add_to_indexes insert add_capabilities
registers_echo = refl

one_history : History one_service
one_history = History.call History.start (Call.registers echo true registers_echo)

History-IsSound_example : IsSound one_service
History-IsSound_example = History-IsSound one_history

indexed : IsIndexed one_service
indexed = (History-IsSound one_history).indexed

drawn : (n : ℕ) → 0 < n → 0 < n
drawn n h = h

available : find_available_services 5 "echo" one_service ≡ "echo-1" ∷ []
unfolding find_available_services keep_if range lookup is_healthy is_overloaded
available = refl

some_available : find_available_services 5 "echo" one_service ≢ []
some_available e = cc (sym available, e)

only_echo :
    (id : String) (s : ServiceIdentity) → lookup id one_service.identities ≡ some s → echo ≡ s
unfolding lookup
only_echo id s found = elim (Bool-cases ("echo-1" == id)) [
  | inl same ↦ cc (subst (λ b. (if b then some echo else none) ≡ some s) same found)
  | inr other ↦ cc (subst (λ b. (if b then some echo else none) ≡ some s) other found)
]

bounded :
    (id : String) (s : ServiceIdentity)
    → lookup id one_service.identities ≡ some s
    → s.max_concurrent < 2 ^ 32
bounded id s found = subst (λ t. t.max_concurrent < 2 ^ 32) (only_echo id s found) (omega arith)

bounded_time :
    (id : String) (s : ServiceIdentity)
    → lookup id one_service.identities ≡ some s
    → ltb_ℤ s.avg_response_time max_milliseconds ≡ true
bounded_time id s found =
    subst (λ t. ltb_ℤ t.avg_response_time max_milliseconds ≡ true) (only_echo id s found) refl

below_hundred :
    (n m : ℕ)
    → n < m
    → m < 2 ^ 32
    → naturals.lt
        (naturals.mul
          (naturals.div (naturals.of_int (pos n)) (naturals.of_int (pos m)))
          (naturals.lit 100 0))
        (naturals.lit 100 0)
      ≡ true
below_hundred n m h k = ground (arith, div-eq_of_lt h)

select_best_service-Serves_example :
    let id = (select_best_service naturals (λ n. 0) 5 "echo" least_loaded one_service).0 in
    ((find_available_services 5 "echo" one_service ≡ []) × (id ≡ ""))
    ⊎ Serves one_service 5 "echo" id
select_best_service-Serves_example =
    select_best_service-Serves naturals (λ n. 0) 5 "echo" one_service indexed least_loaded drawn

select_best_service-NoneLighter_example :
    (s : ServiceIdentity) × (lookup
        (select_best_service naturals (λ n. 0) 5 "echo" least_loaded one_service).0
        one_service.identities
      ≡ some s)
    × NoneLighter naturals (λ n. 0) 5 "echo" one_service indexed s
select_best_service-NoneLighter_example =
    select_best_service-NoneLighter naturals (λ n. 0) 5 "echo" one_service indexed some_available
      bounded below_hundred

register_service_cases_example : register_service echo one_service ≡ (
    if echo.service_id == ""
    then done (false, one_service)
    else if is_some (lookup echo.service_id one_service.identities)
    then blocked
    else done (true, add_to_indexes echo (store_identity echo one_service)))
register_service_cases_example = register_service_cases echo one_service refl

-- ===== src/Registry/History.antt =====
-- Every history of calls on the registry keeps its indexes right and leaves the lock free.
use rdws_us.Prelude.{ℕ, ◌+◌, ◌%◌, ◌^◌, String, Bool, ◌≡◌, refl, arith, sym, subst}
use rdws_us.Prelude.Int.{ℤ}
use rdws_us.Prelude.Floats.{Floats}
use rdws_us.Prelude.Run.{done}
use rdws_us.Prelude.Table.{text_key}
use rdws_us.Identity.{ServiceIdentity}
use rdws_us.Registry.{
  ServiceRegistry, LoadBalancingStrategy, empty_registry, update_service, register_service,
  unregister_service, remove_unhealthy_services,
}
use rdws_us.Registry.Locking.{remove_unhealthy_services_cases}
use rdws_us.Registry.Queries.{
  after_response, update_current_load, ping_service, record_service_error, record_response_time,
}
use rdws_us.Registry.Select.{select_best_service}
use rdws_us.Registry.Sound.{
  IsSound, empty_registry-IsSound, register-IsSound, update-IsSound, unregister-IsSound,
  modify-IsSound, select-IsSound,
}

-- One call on the registry that returns.
pub data Call (r t : ServiceRegistry) : Type 1 where
  registers : (s : ServiceIdentity) (b : Bool) → register_service s r ≡ done (b, t) → Call r t
  updates : (s : ServiceIdentity) (b : Bool) → update_service s r ≡ done (b, t) → Call r t
  unregisters : (id : String) (b : Bool) → unregister_service id r ≡ done (b, t) → Call r t
  cleans : (timeout now : ℕ) → remove_unhealthy_services timeout now r ≡ done (tt, t) → Call r t
  loads : (id : String) (load : ℕ) → t ≡ update_current_load id load r → Call r t
  pings : (now : ℕ) (id : String) → t ≡ ping_service now id r → Call r t
  fails : (id : String) → t ≡ record_service_error id r → Call r t
  responds : (F : Floats) (id : String) (ms : ℤ) → t ≡ record_response_time F id ms r → Call r t
  selects :
      (F : Floats) (draw : ℕ → ℕ) (now : ℕ) (capability : String) (strategy : LoadBalancingStrategy)
      → t ≡ (select_best_service F draw now capability strategy r).1
      → Call r t

Call-IsSound : (r t : ServiceRegistry) → Call r t → IsSound r → IsSound t
unfolding update_current_load ping_service record_service_error record_response_time
Call-IsSound r t (registers s b e) v = register-IsSound r v s b t e
Call-IsSound r t (updates s b e) v = update-IsSound r v s b t e
Call-IsSound r t (unregisters id b e) v = unregister-IsSound r v id b t e
Call-IsSound r t (cleans timeout now e) v =
    subst IsSound (ground (arith, remove_unhealthy_services_cases timeout now r v.free)) v
Call-IsSound r t (loads id load e) v = subst IsSound (sym e) (
    modify-IsSound r v (λ s. record s { current_load = load }) id (λ s. refl) (λ s. refl)
      (λ s. refl) (λ s. refl))
Call-IsSound r t (pings now id e) v = subst IsSound (sym e) (
    modify-IsSound r v (λ s. record s { last_ping = now }) id (λ s. refl) (λ s. refl) (λ s. refl)
      (λ s. refl))
Call-IsSound r t (fails id e) v = subst IsSound (sym e) (
    modify-IsSound r v (λ s. record s { error_count = (s.error_count + 1) % 2 ^ 32 }) id (λ s. refl)
      (λ s. refl) (λ s. refl) (λ s. refl))
Call-IsSound r t (responds F id ms e) v =
    subst IsSound (sym e)
      (modify-IsSound r v (after_response F ms) id (λ s. refl) (λ s. refl) (λ s. refl) (λ s. refl))
Call-IsSound r t (selects F draw now capability strategy e) v =
    subst IsSound (sym e) (select-IsSound r v F draw now capability strategy)

pub data History : ServiceRegistry → Type 1 where
  start : History empty_registry
  call : {r t : ServiceRegistry} → History r → Call r t → History t

-- After any history of calls that returned, every service stands under its own id, each of the
-- three indexes holds exactly the ids that belong there, and the lock is free.
pub History-IsSound : {r : ServiceRegistry} → History r → IsSound r
History-IsSound start = empty_registry-IsSound
History-IsSound (call {r} {t} h c) = Call-IsSound r t c (History-IsSound h)

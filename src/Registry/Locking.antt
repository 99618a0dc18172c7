-- ===== src/Registry/Locking.antt =====
-- What the members that change the registry do with the lock.
use rdws_us.Prelude.{
  ℕ, String, Bool, true, false, not, [], ◌∷◌, ◌≡◌, refl, ◌==◌, arith, if◌then◌else◌, is_some,
  any_of,
}
use rdws_us.Prelude.Run.{done, blocked}
use rdws_us.Prelude.Table.{Table, text_key, lookup}
use rdws_us.Identity.{ServiceIdentity, is_healthy}
use rdws_us.Registry.{
  ServiceRegistry, add_to_indexes, remove_from_indexes, store_identity, replace_service,
  update_service, register_service, drop_service, unregister_service, unregister_all, ids_where,
  remove_unhealthy_services,
}

-- While its own thread holds the lock, an update never ends.
update_service-blocked :
    (s : ServiceIdentity) (r : ServiceRegistry) → r.locked ≡ true → update_service s r ≡ blocked
unfolding update_service
update_service-blocked s r h = rw h

unregister_service-blocked :
    (id : String) (r : ServiceRegistry) → r.locked ≡ true → unregister_service id r ≡ blocked
unfolding unregister_service
unregister_service-blocked id r h = rw h

-- Registration while the lock is free, on each branch: an empty id is refused and changes nothing,
-- an id that is registered blocks the thread for ever, and a new id is stored and indexed, the lock
-- released.
pub register_service_cases :
    (s : ServiceIdentity) (r : ServiceRegistry)
    → r.locked ≡ false
    → register_service s r ≡ (
        if s.service_id == ""
        then done (false, r)
        else if is_some (lookup s.service_id r.identities)
        then blocked
        else done (true, add_to_indexes s (store_identity s r)))
unfolding register_service add_to_indexes
register_service_cases s r h =
    ground (arith, update_service-blocked s (record r { locked = true }) refl)

pub update_service_cases :
    (s : ServiceIdentity) (r : ServiceRegistry)
    → r.locked ≡ false
    → update_service s r ≡ replace_service (lookup s.service_id r.identities) s r
unfolding update_service replace_service add_to_indexes remove_from_indexes
update_service_cases s r h = ground arith

pub unregister_service_cases :
    (id : String) (r : ServiceRegistry)
    → r.locked ≡ false
    → unregister_service id r ≡ drop_service (lookup id r.identities) id r
unfolding unregister_service drop_service remove_from_indexes
unregister_service_cases id r h = ground arith

-- Whether any entry of the registry passes the test.
abbrev pub any_service : (ServiceIdentity → Bool) → Table String ServiceIdentity → Bool
any_service p m = any_of (λ e. p e.1) m

unregister_all-blocked :
    (p : ServiceIdentity → Bool) (m : Table String ServiceIdentity) (r : ServiceRegistry)
    → r.locked ≡ true
    → unregister_all (ids_where p m) r ≡ (if any_service p m then blocked else done (tt, r))
unfolding unregister_all ids_where any_of
unregister_all-blocked p [] r h = refl
unregister_all-blocked p ((id, s) ∷ m) r h =
    ground (arith, unregister_all-blocked p m r h, unregister_service-blocked id r h)

-- The removal of unhealthy services, while the lock is free, blocks its thread for ever whenever
-- there is one to remove, and otherwise changes nothing.
pub remove_unhealthy_services_cases :
    (timeout now : ℕ) (r : ServiceRegistry)
    → r.locked ≡ false
    → remove_unhealthy_services timeout now r ≡ (
        if any_service (λ s. not (is_healthy timeout now s)) r.identities
        then blocked
        else done (tt, r))
unfolding remove_unhealthy_services
remove_unhealthy_services_cases timeout now r h = ground (
  arith,
  unregister_all-blocked (λ s. not (is_healthy timeout now s)) r.identities
      (record r { locked = true }) refl,
)

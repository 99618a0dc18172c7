-- ===== src/Gateway/Disconnect.antt =====
-- The loss of a connection: closeConnection of src/service_broker/Services/ServiceGateway.cpp.
use rdws_us.Prelude.{
  ℕ, String, Bool, true, false, not, ◌&&◌, Option, none, some, [], ◌∷◌, ◌≡◌, ◌≢◌, refl, subst, ◌==◌,
  arith, if◌then◌else◌, eq_iff, All, Option-cases, inl, inr,
}
use rdws_us.Prelude.Run.{done}
use rdws_us.Prelude.Table.{
  Table, text_key, number_key, lookup, erase, lookup-erase, lookup-erase_self,
}
use rdws_us.Registry.{ServiceRegistry, unregister_service, drop_service, remove_from_indexes}
use rdws_us.Registry.Locking.{unregister_service_cases}
use rdws_us.Gateway.Types.{
  publish_event, PendingRequest, Gateway, RequestState, queued, in_flight, completed, failed,
  timed_out, is_terminal,
}
use rdws_us.Prelude.Int.{pos}
use rdws_us.Gateway.Connections.{
  with_registry, forget, disconnected_event, close_connection, service_of, fail_request, fail_all,
}

-- A request that waits for its service.
abbrev pub is_waiting : RequestState → Bool
is_waiting queued = true
is_waiting in_flight = true
is_waiting _ = false

-- What becomes of a request when a service is lost: 503 where it waits for that service.
abbrev pub failed_at : String → Option PendingRequest → Option PendingRequest
failed_at service none = none
failed_at service (some p) = some (
    if p.target_service_id == service && is_waiting p.state
    then record p { state = failed; status_code = pos 503; error_message = "Service disconnected" }
    else p)

not-is_terminal : (state : RequestState) → not (is_terminal state) ≡ is_waiting state
unfolding is_terminal
not-is_terminal queued = refl
not-is_terminal in_flight = refl
not-is_terminal completed = refl
not-is_terminal failed = refl
not-is_terminal timed_out = refl

fail_request-eq-failed_at :
    (service : String) (p : PendingRequest)
    → some (fail_request service p) ≡ failed_at service (some p)
fail_request-eq-failed_at service p = ground (arith, not-is_terminal p.state)

pub lookup-fail_all :
    (service id : String) (m : Table String PendingRequest)
    → lookup id (fail_all service m) ≡ failed_at service (lookup id m)
unfolding fail_all lookup
lookup-fail_all service id [] = refl
lookup-fail_all service id ((j, p) ∷ m) =
    ground (arith, lookup-fail_all service id m, fail_request-eq-failed_at service p)

unregister_service-Removes :
    (id : String) (r : ServiceRegistry)
    → r.locked ≡ false
    → (b : Bool) × (r' : ServiceRegistry) × (unregister_service id r ≡ done (b, r'))
      × (lookup id r'.identities ≡ none)
      × (r'.locked ≡ false)
unfolding drop_service remove_from_indexes
unregister_service-Removes id r free = elim (Option-cases (lookup id r.identities)) [
  | inl missing ↦ (false, r, ground (arith, unregister_service_cases id r free), missing, free)
  | inr (s, found) ↦
      let eq : unregister_service id r ≡ drop_service (some s) id r =
        subst (λ o. unregister_service id r ≡ drop_service o id r) found
          (unregister_service_cases id r free) in
      (
        true,
        record (remove_from_indexes s r) { identities = erase id r.identities },
        eq,
        lookup-erase_self id r.identities,
        free,
      )
]

-- No request in flight waits for the service.
abbrev pub NoneWaitsFor : String → Table String PendingRequest → Type 0
NoneWaitsFor service m =
    All (λ e. (e.1.target_service_id == service && is_waiting e.1.state) ≡ false) m

fail_all-NoneWaitsFor :
    (service : String) (m : Table String PendingRequest) → NoneWaitsFor service (fail_all service m)
unfolding fail_all is_terminal
fail_all-NoneWaitsFor service [] = tt
fail_all-NoneWaitsFor service ((id, p) ∷ m) =
    (ground (arith, not-is_terminal p.state), fail_all-NoneWaitsFor service m)

module _ {D : Type 0} (fd : ℕ) (g : Gateway D) where
  abbrev pub service : String
  service = service_of (lookup fd g.active_connections)

  -- A connection on which a service is identified, when it closes while nobody holds the registry's
  -- lock, closes without blocking: its entry goes and the other connections stay; the service is no
  -- longer registered; each request that was queued or in flight for it has failed with 503 "Service
  -- disconnected", so none waits for it, and the other requests are as before.
  pub close_connection-FailsRequests :
      g.registry.locked ≡ false
      → (service ≢ "")
      → (g' : Gateway D) × (close_connection fd g ≡ done g')
        × ((j : ℕ)
            → lookup j g'.active_connections
              ≡ (if number_key.beq fd j then none else lookup j g.active_connections))
        × (lookup service g'.registry.identities ≡ none)
        × NoneWaitsFor service g'.pending_requests
        × ((id : String)
            → lookup id g'.pending_requests ≡ failed_at service (lookup id g.pending_requests))
  unfolding close_connection
  close_connection-FailsRequests free named =
      let (b, r', eq, gone, unlocked) = unregister_service-Removes service g.registry free in
      let g₁ =
        publish_event "service.disconnected" (disconnected_event service)
          (forget fd (with_registry r' g)) in
      (
        record g₁ { pending_requests = fail_all service g.pending_requests },
        ground (arith, eq, eq_iff service ""),
        (λ j. lookup-erase fd j g.active_connections),
        gone,
        fail_all-NoneWaitsFor service g.pending_requests,
        (λ id. lookup-fail_all service id g.pending_requests),
      )

-- ===== src/Gateway/Identifying.antt =====
-- IDENTIFY and the health checker's thread: handleIdentifyMessage and performHealthCheck of
-- src/service_broker/Services/ServiceGateway.cpp.
use rdws_us.Prelude.{
  ℕ, String, true, false, not, none, some, [], ◌∷◌, ◌++◌, ◌≡◌, ◌≢◌, refl, arith, if◌then◌else◌,
  is_some, eq_iff, ◌*◌, ◌-◌, leb, any_of, Option-cases, inl, inr,
}
use rdws_us.Prelude.Floats.{Floats}
use rdws_us.Prelude.Run.{done, blocked}
use rdws_us.Prelude.Table.{Table, text_key, number_key, lookup, insert, lookup-insert_self}
use rdws_us.Identity.{ServiceIdentity, is_healthy}
use rdws_us.Registry.{register_service, add_to_indexes, store_identity}
use rdws_us.Registry.Locking.{register_service_cases, remove_unhealthy_services_cases, any_service}
use rdws_us.Gateway.Types.{ClientConnection, Gateway, World, send_message, publish_event}
use rdws_us.Gateway.Requests.{find_target}
use rdws_us.Gateway.Targets.{FirstServing, find_target-FirstServing}
use rdws_us.Json.{Json, get_object}
use rdws_us.Identity.{from_json}
use rdws_us.Gateway.Waiting.{cleanup_expired_requests}
use rdws_us.Gateway.Connections.{
  attach, identify, handle_identify_message, with_registry, acknowledgement, connected_event,
  perform_health_check, health_round,
}

-- Over 60 seconds, in whole seconds, are 61 at least.
not-is_healthy :
    (now : ℕ) (s : ServiceIdentity)
    → not (is_healthy 60 now s) ≡ leb (61 * 1000000000) (now - s.last_ping)
unfolding is_healthy
not-is_healthy now s = ground arith

any_service-not-is_healthy :
    (now : ℕ) (m : Table String ServiceIdentity)
    → any_service (λ s. not (is_healthy 60 now s)) m
      ≡ any_service (λ s. leb (61 * 1000000000) (now - s.last_ping)) m
unfolding any_of
any_service-not-is_healthy now [] = refl
any_service-not-is_healthy now ((id, s) ∷ m) =
    rw (not-is_healthy now s) (rw (any_service-not-is_healthy now m) refl)

-- While the lock of the registry is free, a round of the health checker blocks its thread for ever
-- where one registered service has been silent for 61 seconds or more, before it cleans up any
-- request; otherwise it only cleans up. Times are in nanoseconds.
pub health_round_cases :
    {D : Type 0} (now : ℕ) (g : Gateway D)
    → g.registry.locked ≡ false
    → health_round now g ≡ (
        if any_service (λ s. leb (61 * 1000000000) (now - s.last_ping)) g.registry.identities
        then blocked
        else done (cleanup_expired_requests now g))
unfolding health_round perform_health_check
health_round_cases now g free = ground (
  arith,
  remove_unhealthy_services_cases 60 now g.registry free,
  any_service-not-is_healthy now g.registry.identities,
)

find_target-lookup :
    (id : String) (fd : ℕ) (conn : ClientConnection) (m : Table ℕ ClientConnection)
    → lookup fd m ≡ some conn
    → conn.identified ≡ true
    → conn.service_id ≡ id
    → is_some (find_target id m) ≡ true
unfolding find_target lookup
find_target-lookup id fd conn [] found identified named = cc
find_target-lookup id fd conn ((k, c) ∷ m) found identified named =
    ground (arith, find_target-lookup id fd conn m, eq_iff conn.service_id id)

find_target-found :
    (id : String) (m : Table ℕ ClientConnection)
    → is_some (find_target id m) ≡ true
    → (target : ℕ) × (find_target id m ≡ some target) × FirstServing id target m
find_target-found id m found = elim (Option-cases (find_target id m)) [
  | inl missing ↦ absurd (ground (arith, missing, found))
  | inr (target, there) ↦ (target, there, find_target-FirstServing id target m there)
]

module _ {F : Floats} (w : World F) (fd : ℕ) (s : ServiceIdentity) (g : Gateway F.D) where
  -- The identity and the gateway that IDENTIFY registers with.
  abbrev attached : ServiceIdentity × Gateway F.D
  attached = attach fd s g

  attach-Keeps : (attached.0.service_id ≡ s.service_id) × (attached.1.registry ≡ g.registry)
  unfolding attach
  attach-Keeps = ground arith

  register-attached :
      g.registry.locked ≡ false
      → s.service_id ≢ ""
      → register_service attached.0 attached.1.registry ≡ (
          if is_some (lookup s.service_id g.registry.identities)
          then blocked
          else done
              (true, add_to_indexes attached.0 (store_identity attached.0 attached.1.registry)))
  register-attached free named =
      let (same_id, same_registry) = attach-Keeps in
      let unlocked : attached.1.registry.locked ≡ false = ground (arith, same_registry, free) in
      ground (
        arith,
        register_service_cases attached.0 attached.1.registry unlocked,
        same_id,
        same_registry,
        named,
        eq_iff s.service_id "",
      )

  -- While the lock of the registry is free, an IDENTIFY, under an id that is not empty, of a service
  -- that is registered already, as after a reconnection, blocks the thread of its connection for ever.
  pub identify-registered :
      g.registry.locked ≡ false
      → s.service_id ≢ ""
      → is_some (lookup s.service_id g.registry.identities) ≡ true
      → identify w fd s g ≡ blocked
  unfolding identify
  identify-registered free named there = ground (arith, register-attached free named)

  identify-new :
      (conn : ClientConnection)
      → lookup fd g.active_connections ≡ some conn
      → g.registry.locked ≡ false
      → s.service_id ≢ ""
      → lookup s.service_id g.registry.identities ≡ none
      → (g' : Gateway F.D) × (identify w fd s g ≡ done (true, g'))
        × (is_some (lookup s.service_id g'.registry.identities) ≡ true)
        × ((target : ℕ) × (find_target s.service_id g'.active_connections ≡ some target)
            × FirstServing s.service_id target g'.active_connections)
        × (g'.sent ≡ g.sent ++ (fd, acknowledgement s) ∷ [])
  unfolding identify attach add_to_indexes send_message
  identify-new conn active free named new =
      let s' : ServiceIdentity = record s {
        connection_type = conn.connection_type;
        client_address = conn.address;
      } in
      let conn' : ClientConnection = record conn { service_id = s.service_id; identified = true } in
      let g₁ : Gateway F.D = record g {
        active_connections = insert fd conn' g.active_connections;
      } in
      let opened : attach fd s g ≡ (s', g₁) = ground arith in
      let g₂ = with_registry (add_to_indexes s' (store_identity s' g.registry)) g₁ in
      (
        publish_event "service.connected" (connected_event s')
            (send_message w fd (acknowledgement s') g₂).1,
        ground (
          arith,
          opened,
          register_service_cases s' g.registry free,
          named,
          eq_iff s.service_id "",
          new,
        ),
        ground (arith, lookup-insert_self s.service_id s' g.registry.identities),
        find_target-found s.service_id _ (
            find_target-lookup s.service_id fd conn' _
              (lookup-insert_self fd conn' g.active_connections) refl refl),
        refl,
      )

module _ {F : Floats} (w : World F) (fd : ℕ) (message o : Json F.D) (g : Gateway F.D) where
  abbrev pub identity : ServiceIdentity
  identity = from_json w.now o

  -- While the lock of the registry is free, an IDENTIFY of a new service, under an id and a name that
  -- are not empty, on an open connection succeeds: the service is registered, a request for it goes to
  -- the first connection on which it is identified, and it is sent the acknowledgement.
  pub handle_identify_message-new :
      (conn : ClientConnection)
      → get_object message "identity" ≡ some o
      → lookup fd g.active_connections ≡ some conn
      → g.registry.locked ≡ false
      → identity.service_id ≢ ""
      → identity.service_name ≢ ""
      → lookup identity.service_id g.registry.identities ≡ none
      → (g' : Gateway F.D) × (handle_identify_message w fd message g ≡ done (true, g'))
        × (is_some (lookup identity.service_id g'.registry.identities) ≡ true)
        × ((target : ℕ) × (find_target identity.service_id g'.active_connections ≡ some target)
            × FirstServing identity.service_id target g'.active_connections)
        × (g'.sent ≡ g.sent ++ (fd, acknowledgement identity) ∷ [])
  unfolding handle_identify_message
  handle_identify_message-new conn held active free named titled new =
      let (g', done_, registered, reached, sent) =
        identify-new w fd identity g conn active free named new in
      (
        g',
        ground (
          arith,
          held,
          done_,
          eq_iff identity.service_id "",
          eq_iff identity.service_name "",
          named,
          titled,
        ),
        registered,
        reached,
        sent,
      )

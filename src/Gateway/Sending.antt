-- ===== src/Gateway/Sending.antt =====
-- What a request that is sent or invoked leaves behind: sendRequest and handleInvokeMessage of
-- src/service_broker/Services/ServiceGateway.cpp.
use rdws_us.Prelude.{
  ℕ, String, true, false, none, some, [], ◌∷◌, ◌++◌, ◌≡◌, ◌≢◌, refl, sym, ap, subst, ◌∙◌, ◌==◌,
  arith, if◌then◌else◌, Bool-cases, Option-cases, inl, inr,
}
use rdws_us.Prelude.Floats.{Floats}
use rdws_us.Prelude.Table.{
  text_key, number_key, lookup, insert, lookup-insert, lookup-erase, lookup-insert_self,
}
use Prim.Native.String
use rdws_us.Prelude.Int.{pos}
use rdws_us.Json.{Json, boolean, int, str, object}
use rdws_us.Registry.{ServiceRegistry, LoadBalancingStrategy}
use rdws_us.Registry.Select.{select_best_service}
use rdws_us.Config.{lb_strategy_for}
use rdws_us.Router.{resolve}
use rdws_us.Gateway.Types.{
  PendingRequest, Gateway, World, queued, in_flight, is_queued, send_message, generate_request_id,
  request_id_of,
}
use rdws_us.Gateway.Requests.{
  find_target, advance, submit, send_direct_request, send_request, invoke, request_message,
  new_request, effective,
}
use rdws_us.Gateway.Targets.{FirstServing, find_target-FirstServing}

module _ {F : Floats} (w : World F) (p : PendingRequest) (payload : Json F.D) where
  -- Delivered: the request is in flight, and the first connection of the service that it targets was
  -- sent the message, which the connection took.
  abbrev pub Delivered : Gateway F.D → Gateway F.D → Type 0
  Delivered g g' =
      (fd : ℕ) × FirstServing p.target_service_id fd g.active_connections
      × (w.accepts fd ≡ true)
      × (g'.sent ≡ g.sent ++ (fd, request_message p.request_id p.capability payload) ∷ [])
      × (lookup p.request_id g'.pending_requests
          ≡ some (record p { state = in_flight; updated_at = w.now }))

  -- Given up: the request has no slot, and the others are as they were.
  abbrev pub GivenUp : Gateway F.D → Gateway F.D → Type 0
  GivenUp g g' =
      (j : String)
      → lookup j g'.pending_requests
        ≡ (if p.request_id == j then none else lookup j g.pending_requests)

  submit-Delivered :
      (g : Gateway F.D)
      → p.state ≡ queued
      → (submit w p payload g).0 ≡ true
      → Delivered g (submit w p payload g).1
  unfolding submit send_direct_request send_message advance is_queued
  submit-Delivered g fresh ok =
      elim (Option-cases (find_target p.target_service_id g.active_connections)) [
        | inl missing ↦ ground arith
        | inr (fd, found) ↦
            let slots = lookup-insert_self p.request_id p g.pending_requests in
            (
              fd,
              find_target-FirstServing p.target_service_id fd g.active_connections found,
              ground arith,
              ground arith,
              ground (
                arith,
                slots,
                lookup-insert_self p.request_id (record p { state = in_flight; updated_at = w.now })
                    (insert p.request_id p g.pending_requests),
              ),
            )
      ]

  submit-GivenUp :
      (g : Gateway F.D) → (submit w p payload g).0 ≡ false → GivenUp g (submit w p payload g).1
  unfolding submit send_direct_request send_message
  submit-GivenUp g failed j = ground (
    arith,
    lookup-insert p.request_id j p g.pending_requests,
    lookup-erase p.request_id j (insert p.request_id p g.pending_requests),
  )

  submit-KeepsOthers :
      (g : Gateway F.D) (j : String)
      → (p.request_id == j) ≡ false
      → lookup j (submit w p payload g).1.pending_requests ≡ lookup j g.pending_requests
  unfolding submit send_direct_request send_message advance
  submit-KeepsOthers g j other =
      let r : PendingRequest = record p { state = in_flight; updated_at = w.now } in
      ground (
        arith,
        lookup-insert p.request_id j p g.pending_requests,
        lookup-erase p.request_id j (insert p.request_id p g.pending_requests),
        lookup-insert_self p.request_id p g.pending_requests,
        lookup-insert p.request_id j r (insert p.request_id p g.pending_requests),
        lookup-insert p.request_id j p (insert p.request_id p g.pending_requests),
      )

module _ {F : Floats} (w : World F) (capability : String) (payload : Json F.D)
    (strategy : LoadBalancingStrategy) (g : Gateway F.D) where
  abbrev pub resolved : String
  resolved = resolve F capability payload g.router

  abbrev pub chosen : String × ServiceRegistry
  chosen =
      select_best_service F w.draw w.now resolved
        (effective strategy (lb_strategy_for resolved g.config)) g.registry

  abbrev pub numbered : Gateway F.D
  numbered = (generate_request_id (record g { registry = chosen.1 })).1

  abbrev pub request : PendingRequest
  request = new_request w (request_id_of g.request_id_counter) chosen.0 resolved payload none

  -- A request that gets an id is in flight under that id, and the first connection on which the
  -- service that load balancing chose is identified took its REQUEST message.
  pub send_request-InFlight :
      (send_request w capability payload strategy g).0 ≢ ""
      → let (id, g') = send_request w capability payload strategy g in
        Delivered w (new_request w id chosen.0 resolved payload none) payload g g'
  unfolding send_request generate_request_id
  send_request-InFlight sent = elim (Bool-cases (chosen.0 == "")) [
    | inl missing ↦ elim (sent (ground arith)) [ ]
    | inr present ↦ elim (Bool-cases (submit w request payload numbered).0) [
      | inl delivered ↦
          let eq : send_request w capability payload strategy g
              ≡ (request.request_id, (submit w request payload numbered).1) =
            ground arith in
          subst (λ r. Delivered w (new_request w r.0 chosen.0 resolved payload none) payload g r.1)
            (sym eq) (submit-Delivered w request payload numbered refl delivered)
      | inr failed ↦ elim (sent (ground arith)) [ ]
    ]
  ]

  -- Every request under another id than the one that is next keeps its slot as it was, whether the
  -- new request is sent or not.
  pub send_request-KeepsOthers :
      (j : String)
      → (request_id_of g.request_id_counter == j) ≡ false
      → lookup j (send_request w capability payload strategy g).1.pending_requests
        ≡ lookup j g.pending_requests
  unfolding send_request generate_request_id
  send_request-KeepsOthers j other =
      ground (arith, submit-KeepsOthers w request payload numbered j other)

module _ {F : Floats} (w : World F) (fd : ℕ) (request_id capability : String) (payload : Json F.D)
    (g : Gateway F.D) where
  abbrev pub invoke_capability : String
  invoke_capability = resolve F capability payload g.router

  abbrev pub invoke_target : String × ServiceRegistry
  invoke_target =
      select_best_service F w.draw w.now invoke_capability
        (lb_strategy_for invoke_capability g.config) g.registry

  abbrev pub invoked : PendingRequest
  invoked = new_request w request_id invoke_target.0 invoke_capability payload (some fd)

  -- An invocation that succeeds is in flight under the id that the invoking service gave it, for
  -- that service, and the first connection of the chosen service took its message.
  pub invoke-InFlight :
      (invoke w fd request_id capability payload g).0 ≡ true
      → Delivered w invoked payload g (invoke w fd request_id capability payload g).1
  unfolding invoke
  invoke-InFlight ok = elim (Bool-cases (invoke_target.0 == "")) [
    | inl missing ↦ ground arith
    | inr present ↦
        let g₁ : Gateway F.D = record g { registry = invoke_target.1 } in
        let eq : invoke w fd request_id capability payload g ≡ submit w invoked payload g₁ =
          ground arith in
        subst (λ r. Delivered w invoked payload g r.1) (sym eq)
          (submit-Delivered w invoked payload g₁ refl (sym (ap (λ r. r.0) eq) ∙ ok))
  ]

  -- The service that invokes is answered with 503 where no service has the capability; where the
  -- chosen service has no connection, it is sent nothing.
  pub invoke-unanswered :
      find_target invoke_target.0 g.active_connections ≡ none
      → let (ok, g') = invoke w fd request_id capability payload g in
        (ok ≡ false)
        × (g'.sent ≡ (
            if invoke_target.0 == ""
            then g.sent
              ++ (
                fd,
                object (
                    ("type", str "INVOKE_RESPONSE")
                    ∷ ("requestId", str request_id)
                    ∷ ("statusCode", int (pos 503))
                    ∷ ("success", boolean false)
                    ∷ (
                      "error",
                      str (String.◌++◌ "No available service for capability " invoke_capability),
                    )
                    ∷ []),
              )
                ∷ []
            else g.sent))
  unfolding invoke submit send_direct_request send_message
  invoke-unanswered unreachable = (ground arith, ground arith)

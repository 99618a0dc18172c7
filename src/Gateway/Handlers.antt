-- ===== src/Gateway/Handlers.antt =====
-- What each handler of src/service_broker/Services/ServiceGateway.cpp does to the slots.
use rdws_us.Prelude.{
  ℕ, String, Bool, Option, none, some, [], ◌≡◌, refl, sym, subst, ◌∙◌, ◌==◌, arith, if◌then◌else◌,
  is_some, Bool-cases, Option-cases, inl, inr,
}
use rdws_us.Prelude.Floats.{Floats}
use rdws_us.Prelude.Run.{done, ◌>>=◌, >>=-eq-done}
use rdws_us.Prelude.Table.{text_key, number_key, lookup, insert, erase}
use rdws_us.Json.{Json, get_string, find}
use rdws_us.Gateway.Correlation.{handle_response_message-known}
use rdws_us.Registry.{LoadBalancingStrategy}
use rdws_us.Gateway.Types.{PendingRequest, Gateway, World, send_message, generate_request_id}
use rdws_us.Gateway.Requests.{
  advance_at, submit, send_direct_request, send_request, invoke, handle_invoke_message,
}
use rdws_us.Gateway.Responses.{answered, route_response, accept_response, handle_response_message}
use rdws_us.Gateway.Waiting.{finish_wait, expire_all, cleanup_expired_requests}
use rdws_us.Gateway.Connections.{
  attach, identify, handle_identify_message, handle_ping_message, handle_client_message, service_of,
  close_connection, perform_health_check, health_round,
}
use rdws_us.Gateway.Sending.{chosen, numbered, request, invoke_target, invoked}
use rdws_us.Gateway.Slots.{
  IsSlotted, insert-IsSlotted, erase-IsSlotted, advance_at-IsSlotted, fail_all-IsSlotted,
}

pub empty-IsSlotted : IsSlotted []
unfolding lookup
empty-IsSlotted = record { distinct = tt; own = λ id p e. cc }

module _ (F : Floats) where
  abbrev pub Slotted : Gateway F.D → Type 0
  Slotted g = IsSlotted g.pending_requests

  submit-pending :
      (w : World F) (p : PendingRequest) (payload : Json F.D) (g : Gateway F.D)
      → let inserted = insert p.request_id p g.pending_requests in
        (submit w p payload g).1.pending_requests ≡ (
          if (submit w p payload g).0
          then advance_at w.now p.request_id inserted
          else erase p.request_id inserted)
  unfolding submit send_direct_request send_message
  submit-pending w p payload g = ground arith

  submit-Slotted :
      (w : World F) (p : PendingRequest) (payload : Json F.D) (g : Gateway F.D)
      → Slotted g
      → Slotted (submit w p payload g).1
  submit-Slotted w p payload g v =
      let inserted = insert-IsSlotted g.pending_requests v p.request_id p refl in
      subst IsSlotted (sym (submit-pending w p payload g))
        (elim (Bool-cases (submit w p payload g).0) [
          | inl ok ↦ rw ok (advance_at-IsSlotted _ inserted w.now p.request_id)
          | inr failed ↦ rw failed (erase-IsSlotted _ inserted p.request_id)
        ])

  pub send-Slotted :
      (w : World F) (capability : String) (payload : Json F.D) (strategy : LoadBalancingStrategy)
      (g : Gateway F.D)
      → Slotted g
      → Slotted (send_request w capability payload strategy g).1
  unfolding send_request generate_request_id
  send-Slotted w capability payload strategy g v =
      elim (Bool-cases ((chosen w capability payload strategy g).0 == "")) [
        | inl missing ↦ subst IsSlotted (ground arith) v
        | inr present ↦
            elim (Bool-cases
              (submit w (request w capability payload strategy g) payload
                (numbered w capability payload strategy g)).0) [
                  | inl ok ↦ subst IsSlotted (ground arith) (
                      submit-Slotted w (request w capability payload strategy g) payload
                        (numbered w capability payload strategy g) v)
                  | inr failed ↦ subst IsSlotted (ground arith) (
                      submit-Slotted w (request w capability payload strategy g) payload
                        (numbered w capability payload strategy g) v)
                ]
      ]

  identify-same :
      (w : World F) (fd : ℕ) (message : Json F.D) (g t : Gateway F.D) (b : Bool)
      → handle_identify_message w fd message g ≡ done (b, t)
      → t.pending_requests ≡ g.pending_requests
  unfolding handle_identify_message identify attach send_message
  identify-same w fd message g t b e = ground arith

  ping-same :
      (w : World F) (fd : ℕ) (message : Json F.D) (g : Gateway F.D)
      → (handle_ping_message w fd message g).1.pending_requests ≡ g.pending_requests
  unfolding handle_ping_message send_message
  ping-same w fd message g = ground arith

  invoke-Slotted :
      (w : World F) (fd : ℕ) (id capability : String) (payload : Json F.D) (g : Gateway F.D)
      → Slotted g
      → Slotted (invoke w fd id capability payload g).1
  unfolding invoke send_message
  invoke-Slotted w fd id capability payload g v =
      elim (Bool-cases ((invoke_target w fd id capability payload g).0 == "")) [
        | inl missing ↦ subst IsSlotted (ground arith) v
        | inr present ↦ subst IsSlotted (ground arith) (
            submit-Slotted w (invoked w fd id capability payload g) payload
              (record g { registry = (invoke_target w fd id capability payload g).1 }) v)
      ]

  invokes-Slotted :
      (w : World F) (fd : ℕ) (message : Json F.D) (g : Gateway F.D)
      → Slotted g
      → Slotted (handle_invoke_message w fd message g).1
  unfolding handle_invoke_message
  invokes-Slotted w fd message g v = elim (Option-cases (get_string message "requestId")) [
    | inl no_id ↦ subst IsSlotted (ground arith) v
    | inr (id, named) ↦ elim (Option-cases (get_string message "capability")) [
      | inl no_capability ↦ subst IsSlotted (ground arith) v
      | inr (capability, wanted) ↦ elim (Option-cases (find "data" message)) [
        | inl no_data ↦ subst IsSlotted (ground arith) v
        | inr (payload, given) ↦
            subst IsSlotted (ground arith) (invoke-Slotted w fd id capability payload g v)
      ]
    ]
  ]

  route-Slotted :
      (w : World F) (id : String) (p : PendingRequest) (message : Json F.D) (g : Gateway F.D)
      → p.request_id ≡ id
      → Slotted g
      → Slotted (route_response w id p message g)
  unfolding route_response send_message
  route-Slotted w id p message g named v = elim (Option-cases p.originator_fd) [
    | inl none_invoked ↦ elim (Bool-cases (is_some (lookup id g.response_waiters))) [
      | inl waited ↦
          subst IsSlotted (ground arith) (insert-IsSlotted g.pending_requests v id p named)
      | inr unwaited ↦ subst IsSlotted (ground arith) (erase-IsSlotted g.pending_requests v id)
    ]
    | inr (fd, invoking) ↦ subst IsSlotted (ground arith) (erase-IsSlotted g.pending_requests v id)
  ]

  answered-request_id :
      (w : World F) (message : Json F.D) (p : PendingRequest)
      → (answered w.now w.render message p).request_id ≡ p.request_id
  unfolding answered
  answered-request_id w message p = ground arith

  responds-Slotted :
      (w : World F) (message : Json F.D) (g : Gateway F.D)
      → Slotted g
      → Slotted (handle_response_message w message g).1
  unfolding handle_response_message accept_response
  responds-Slotted w message g v = elim (Option-cases (get_string message "requestId")) [
    | inl no_id ↦ subst IsSlotted (ground arith) v
    | inr (id, named) ↦ elim (Option-cases (lookup id g.pending_requests)) [
      | inl unknown ↦ subst IsSlotted (ground arith) v
      | inr (p, found) ↦
          subst (λ r. Slotted r.1)
            (sym (handle_response_message-known F w id message p g named found))
            (route-Slotted w id (answered w.now w.render message p) message _
              (answered-request_id w message p ∙ v.own id p found) v)
    ]
  ]

  pub client-Slotted :
      (w : World F) (fd : ℕ) (message : Option (Json F.D)) (g t : Gateway F.D)
      → handle_client_message w fd message g ≡ done t
      → Slotted g
      → Slotted t
  unfolding handle_client_message
  client-Slotted w fd none g t e v = subst IsSlotted (ground arith) v
  client-Slotted w fd (some message) g t e v = elim (Option-cases (get_string message "type")) [
    | inl untyped ↦ subst IsSlotted (ground arith) v
    | inr (type, typed) ↦ elim (Bool-cases (type == "IDENTIFY")) [
      | inl identifies ↦
          let ran : (handle_identify_message w fd message g >>= λ p. done p.1) ≡ done t =
            ground arith in
          let (a, identified, ended) =
            >>=-eq-done (handle_identify_message w fd message g) (λ p. done p.1) ran in
          let same = identify-same w fd message g a.1 a.0 identified in
          subst IsSlotted (ground (arith, same, ended)) v
      | inr other ↦ elim (Bool-cases (type == "PING")) [
        | inl pings ↦ subst IsSlotted (ground (arith, ping-same w fd message g)) v
        | inr other' ↦ elim (Bool-cases (type == "RESPONSE")) [
          | inl responds ↦ subst IsSlotted (ground arith) (responds-Slotted w message g v)
          | inr other'' ↦ elim (Bool-cases (type == "INVOKE")) [
            | inl invokes ↦ subst IsSlotted (ground arith) (invokes-Slotted w fd message g v)
            | inr unknown ↦ subst IsSlotted (ground arith) v
          ]
        ]
      ]
    ]
  ]

  pub wake-Slotted :
      (now : ℕ) (id : String) (g : Gateway F.D) → Slotted g → Slotted (finish_wait now id g).1
  unfolding finish_wait
  wake-Slotted now id g v = elim (Option-cases (lookup id g.pending_requests)) [
    | inl gone ↦ subst IsSlotted (ground arith) v
    | inr (p, found) ↦ subst IsSlotted (ground arith) (erase-IsSlotted g.pending_requests v id)
  ]

  pub check-pending :
      (now : ℕ) (g t : Gateway F.D)
      → health_round now g ≡ done t
      → t.pending_requests ≡ expire_all now g.pending_requests
  unfolding health_round perform_health_check cleanup_expired_requests
  check-pending now g t e = ground arith

  pub close-Slotted :
      (fd : ℕ) (g t : Gateway F.D) → close_connection fd g ≡ done t → Slotted g → Slotted t
  unfolding close_connection
  close-Slotted fd g t e v = elim (Bool-cases (service_of (lookup fd g.active_connections) == "")) [
    | inl anonymous ↦ subst IsSlotted (ground arith) v
    | inr named ↦
        subst IsSlotted (ground arith)
          (fail_all-IsSlotted g.pending_requests v (service_of (lookup fd g.active_connections)))
  ]

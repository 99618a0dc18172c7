-- ===== src/Gateway/Correlation.antt =====
-- Responses and the requests they answer: handleResponseMessage and waitForResponse of
-- src/service_broker/Services/ServiceGateway.cpp.
use rdws_us.Prelude.{
  ℕ, String, true, false, Option, none, some, List, [], ◌∷◌, ◌++◌, ◌≡◌, refl, ◌==◌, arith,
  if◌then◌else◌, is_some, eq_refl, ap,
}
use rdws_us.Prelude.Floats.{Floats}
use rdws_us.Prelude.Table.{
  text_key, lookup, lookup-insert, lookup-erase, lookup-insert_self, lookup-erase_self,
}
use rdws_us.Prelude.Int.{pos}
use rdws_us.Json.{Json, boolean, str, object, get_string}
use rdws_us.Gateway.Types.{PendingRequest, Gateway, World, is_terminal, send_message}
use rdws_us.Gateway.Responses.{
  answered, invoke_response, route_response, accept_response, handle_response_message,
}
use rdws_us.Gateway.Waiting.{
  get_request_status, begin_wait, may_wake, finish_wait, request_not_found,
}

-- The slot that is left of an answered request.
abbrev pub slot_after : {D : Type 0} → String → PendingRequest → Gateway D → Option PendingRequest
slot_after id p g = elim p.originator_fd [
  | some _ ↦ none
  | none ↦ if is_some (lookup id g.response_waiters) then some p else none
]

abbrev pub sent_after :
    {D : Type 0} → String → PendingRequest → Json D → Gateway D → List (ℕ × Json D)
sent_after id p message g = elim p.originator_fd [
  | none ↦ g.sent
  | some fd ↦ g.sent ++ (fd, invoke_response message p id) ∷ []
]

module _ (F : Floats) (w : World F) (id : String) (message : Json F.D) where
  answered-IsTerminal :
      (p : PendingRequest) → is_terminal (answered w.now w.render message p).state ≡ true
  unfolding answered is_terminal
  answered-IsTerminal p = ground arith

  answered-originator_fd :
      (p : PendingRequest) → (answered w.now w.render message p).originator_fd ≡ p.originator_fd
  unfolding answered
  answered-originator_fd p = ground arith

  route_response-slot :
      (p : PendingRequest) (g : Gateway F.D) (j : String)
      → lookup j (route_response w id p message g).pending_requests
        ≡ (if id == j then slot_after id p g else lookup j g.pending_requests)
  unfolding route_response send_message
  route_response-slot p g j =
      ground (arith, lookup-erase id j g.pending_requests, lookup-insert id j p g.pending_requests)

  route_response-sent :
      (p : PendingRequest) (g : Gateway F.D)
      → (route_response w id p message g).sent ≡ sent_after id p message g
  unfolding route_response send_message
  route_response-sent p g = ground arith

  route_response-waiters :
      (p : PendingRequest) (g : Gateway F.D)
      → (route_response w id p message g).response_waiters ≡ g.response_waiters
  unfolding route_response send_message
  route_response-waiters p g = ground arith

  -- A message that names no request in flight is refused and changes nothing.
  pub handle_response_message-unknown :
      (g : Gateway F.D)
      → get_string message "requestId" ≡ some id
      → lookup id g.pending_requests ≡ none
      → handle_response_message w message g ≡ (false, g)
  unfolding handle_response_message
  handle_response_message-unknown g named missing = ground arith

  pub handle_response_message-known :
      (p : PendingRequest) (g : Gateway F.D)
      → get_string message "requestId" ≡ some id
      → lookup id g.pending_requests ≡ some p
      → handle_response_message w message g ≡ (true, accept_response w id p message g)
  unfolding handle_response_message
  handle_response_message-known p g named found = ground arith

  -- A response to a request in flight is accepted, whatever it holds. The slot of the request is
  -- erased, unless a thread waits for it and no service invoked it: then it holds the answered
  -- request. All other slots and the waiters stay. The invoking service, and no one else, is sent an
  -- INVOKE_RESPONSE, once.
  pub handle_response_message-Correlates :
      (p : PendingRequest) (g : Gateway F.D)
      → get_string message "requestId" ≡ some id
      → lookup id g.pending_requests ≡ some p
      → let p' = answered w.now w.render message p in
        let (accepted, g') = handle_response_message w message g in
        (accepted ≡ true)
        × ((j : String)
            → lookup j g'.pending_requests
              ≡ (if id == j then slot_after id p' g else lookup j g.pending_requests))
        × (g'.sent ≡ sent_after id p' message g)
        × (g'.response_waiters ≡ g.response_waiters)
  unfolding accept_response
  handle_response_message-Correlates p g named found =
      rw (handle_response_message-known p g named found) (
        refl,
        (λ j. route_response-slot _ _ j),
        route_response-sent _ _,
        route_response-waiters _ _,
      )

  -- The status and the payload that reach a waiting thread are those of the answer: a thread that
  -- waits for a request no service invoked, while its response is handled, gets the answered request,
  -- and the slot and the waiter are gone.
  pub finish_wait-handle_response_message :
      (p : PendingRequest) (g : Gateway F.D) (later : ℕ)
      → get_string message "requestId" ≡ some id
      → lookup id g.pending_requests ≡ some p
      → p.originator_fd ≡ none
      → let (result, g') =
          finish_wait later id (handle_response_message w message (begin_wait id g)).1 in
        (result ≡ answered w.now w.render message p)
        × (lookup id g'.pending_requests ≡ none)
        × (lookup id g'.response_waiters ≡ none)
  unfolding begin_wait finish_wait may_wake
  finish_wait-handle_response_message p g later named found hidden =
      let p' = answered w.now w.render message p in
      let g₁ = begin_wait id g in
      let (_, slots, _, waiters) = handle_response_message-Correlates p g₁ named found in
      let g₂ = (handle_response_message w message g₁).1 in
      let waited : is_some (lookup id g₁.response_waiters) ≡ true =
        ground (arith, lookup-insert_self id tt g.response_waiters) in
      let kept : lookup id g₂.pending_requests ≡ some p' =
        ground (arith, slots id, eq_refl id, answered-originator_fd p) in
      (
        ground (arith, kept, answered-IsTerminal p),
        ground (arith, kept, lookup-erase_self id g₂.pending_requests),
        ground (arith, kept, lookup-erase_self id g₂.response_waiters),
      )

  -- A response to a request that no thread waits for yet is lost, if one begins to wait afterwards:
  -- the thread gets 404.
  pub finish_wait-early_response :
      (p : PendingRequest) (g : Gateway F.D) (later : ℕ)
      → get_string message "requestId" ≡ some id
      → lookup id g.pending_requests ≡ some p
      → lookup id g.response_waiters ≡ none
      → let result =
          (finish_wait later id (begin_wait id (handle_response_message w message g).1)).0 in
        (result ≡ request_not_found later id)
        × (result.status_code ≡ pos 404)
        × (result.error_message ≡ "Request not found")
  unfolding begin_wait finish_wait request_not_found
  finish_wait-early_response p g later named found unwaited =
      let (_, slots, _, waiters) = handle_response_message-Correlates p g named found in
      let lost : (finish_wait later id (begin_wait id (handle_response_message w message g).1)).0
          ≡ request_not_found later id =
        ground (arith, slots id, eq_refl id) in
      (lost, ap (λ r. r.status_code) lost, ap (λ r. r.error_message) lost)

  -- The result of a request that no service invoked and no thread waits for is not kept: once the
  -- response is handled, the status of the request is "not_found".
  pub get_request_status-handle_response_message :
      (p : PendingRequest) (g : Gateway F.D) (later : ℕ)
      → get_string message "requestId" ≡ some id
      → lookup id g.pending_requests ≡ some p
      → p.originator_fd ≡ none
      → lookup id g.response_waiters ≡ none
      → get_request_status later id (handle_response_message w message g).1
        ≡ object (
            ("requestId", str id)
            ∷ ("found", boolean false)
            ∷ ("status", str "not_found")
            ∷ ("message", str "Request ID not found")
            ∷ [])
  unfolding get_request_status
  get_request_status-handle_response_message p g later named found hidden unwaited =
      let (_, slots, _, _) = handle_response_message-Correlates p g named found in
      let gone : lookup id (handle_response_message w message g).1.pending_requests ≡ none =
        ground (arith, slots id, eq_refl id, answered-originator_fd p) in
      ground (arith, gone)

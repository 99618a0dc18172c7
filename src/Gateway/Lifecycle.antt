-- ===== src/Gateway/Lifecycle.antt =====
-- A request from sendRequest to the end of waitForResponse, both of
-- src/service_broker/Services/ServiceGateway.cpp, as HTTP requests make it.
use rdws_us.Prelude.{String, some, none, ◌≡◌, ◌≢◌, refl}
use rdws_us.Prelude.Floats.{Floats}
use rdws_us.Prelude.Table.{text_key, lookup}
use rdws_us.Json.{Json, get_string}
use rdws_us.Registry.{LoadBalancingStrategy}
use rdws_us.Gateway.Types.{Gateway, PendingRequest, World, in_flight}
use rdws_us.Gateway.Requests.{new_request, send_request}
use rdws_us.Gateway.Responses.{answered, handle_response_message}
use rdws_us.Gateway.Waiting.{begin_wait, finish_wait}
use rdws_us.Gateway.Sending.{chosen, resolved, send_request-InFlight}
use rdws_us.Gateway.Correlation.{finish_wait-handle_response_message}

module _ {F : Floats} (w later : World F) (capability : String) (payload message : Json F.D)
    (strategy : LoadBalancingStrategy) (g : Gateway F.D) where
  -- The request that a caller was given the id of, as it stands in flight.
  abbrev pub sent_request : PendingRequest
  sent_request =
      record (new_request w (send_request w capability payload strategy g).0
        (chosen w capability payload strategy g).0 (resolved w capability payload strategy g)
        payload none) { state = in_flight; updated_at = w.now }

  -- From end to end: where a request gets an id, its caller waits for it, and then a response under
  -- that id arrives, the caller gets the request that it sent, answered by that response, and neither
  -- a slot nor a waiter is left.
  pub finish_wait-send_request :
      (send_request w capability payload strategy g).0 ≢ ""
      → get_string message "requestId" ≡ some (send_request w capability payload strategy g).0
      → let (id, sent) = send_request w capability payload strategy g in
        let (result, g') =
          finish_wait later.now id (handle_response_message later message (begin_wait id sent)).1 in
        (result ≡ answered later.now later.render message sent_request)
        × (lookup id g'.pending_requests ≡ none)
        × (lookup id g'.response_waiters ≡ none)
  finish_wait-send_request given named =
      let (id, sent) = send_request w capability payload strategy g in
      let (fd, _, _, _, slot) = send_request-InFlight w capability payload strategy g given in
      finish_wait-handle_response_message F later id message sent_request sent later.now named slot
        refl

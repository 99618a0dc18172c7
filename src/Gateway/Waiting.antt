-- ===== src/Gateway/Waiting.antt =====
-- waitForResponse, cleanupExpiredRequests and getRequestStatus of
-- src/service_broker/Services/ServiceGateway.cpp.
use rdws_us.Prelude.{
  ℕ, ◌-◌, ◌*◌, ◌/◌, String, Bool, true, false, not, ◌&&◌, none, some, [], ◌∷◌, ◌==◌, if◌then◌else◌,
  ltb,
}
use rdws_us.Prelude.Int.{pos}
use rdws_us.Prelude.Table.{Table, text_key, lookup, insert, erase}
use rdws_us.Json.{Json, null, boolean, int, str, object}
use rdws_us.Gateway.Types.{
  PendingRequest, Gateway, failed, timed_out, default_timeout, is_terminal, request_state_to_string,
  nanos_per_milli,
}

abbrev pub timeout_message : String
timeout_message = "Request timed out waiting for service response"

-- The value that waitForResponse makes where the request is gone; its other fields are those of a
-- new PendingRequest.
unfoldable pub request_not_found : ℕ → String → PendingRequest
request_not_found now id = record {
  request_id = id;
  target_service_id = "";
  capability = "";
  request_payload = "";
  response_payload = "";
  error_message = "Request not found";
  state = failed;
  status_code = pos 404;
  timeout = default_timeout;
  created_at = now;
  updated_at = now;
  originator_fd = none;
}

unfoldable pub time_out : PendingRequest → PendingRequest
time_out p = record p { state = timed_out; status_code = pos 504; error_message = timeout_message }

-- One round of the loop of cleanupExpiredRequests: `none` where the entry is erased.
abbrev pub expire : ℕ → PendingRequest → PendingRequest
expire now p =
    if not (is_terminal p.state) && ltb p.timeout (now - p.created_at)
    then record (time_out p) { updated_at = now }
    else p

abbrev pub retention : ℕ
retention = 5 * 60 * 1000 * nanos_per_milli

abbrev pub is_stale : ℕ → PendingRequest → Bool
is_stale now p = is_terminal p.state && ltb retention (now - p.updated_at)

unfoldable pub expire_all : ℕ → Table String PendingRequest → Table String PendingRequest
unfolding time_out
expire_all now [] = []
expire_all now ((id, p) ∷ m) =
    let p' = expire now p in
    if is_stale now p' then expire_all now m else (id, p') ∷ expire_all now m

module _ {D : Type 0} where
  -- Up to the wait: the waiter is registered.
  unfoldable pub begin_wait : String → Gateway D → Gateway D
  begin_wait id g = record g { response_waiters = insert id tt g.response_waiters }

  -- The predicate of the wait.
  unfoldable pub may_wake : String → Gateway D → Bool
  may_wake id g = elim (lookup id g.pending_requests) [ none ↦ true | some p ↦ is_terminal p.state ]

  -- From the end of the wait, by the predicate or by the time, under the lock.
  unfoldable pub finish_wait : ℕ → String → Gateway D → PendingRequest × Gateway D
  unfolding may_wake time_out request_not_found
  finish_wait now id g =
      let g' = record g { response_waiters = erase id g.response_waiters } in
      elim (lookup id g.pending_requests) [
        | none ↦ (request_not_found now id, g')
        | some p ↦ (
          (if may_wake id g then p else time_out p),
          record g' { pending_requests = erase id g.pending_requests },
        )
      ]

  unfoldable pub cleanup_expired_requests : ℕ → Gateway D → Gateway D
  unfolding expire_all
  cleanup_expired_requests now g = record g { pending_requests = expire_all now g.pending_requests }

  abbrev text_or_null : String → Json D
  text_or_null s = if s == "" then null else str s

  abbrev pub not_found_status : String → Json D
  not_found_status id = object (
      ("requestId", str id)
      ∷ ("found", boolean false)
      ∷ ("status", str "not_found")
      ∷ ("message", str "Request ID not found")
      ∷ [])

  unfoldable pub get_request_status : ℕ → String → Gateway D → Json D
  get_request_status now id g = elim (lookup id g.pending_requests) [
    | none ↦ not_found_status id
    | some p ↦ object (
        ("requestId", str p.request_id)
        ∷ ("found", boolean true)
        ∷ ("status", str (request_state_to_string p.state))
        ∷ ("statusCode", int p.status_code)
        ∷ ("targetServiceId", str p.target_service_id)
        ∷ ("capability", str p.capability)
        ∷ ("ageMs", int (pos ((now - p.created_at) / nanos_per_milli)))
        ∷ ("timeoutMs", int (pos (p.timeout / nanos_per_milli)))
        ∷ ("responsePayload", text_or_null p.response_payload)
        ∷ ("errorMessage", text_or_null p.error_message)
        ∷ [])
  ]

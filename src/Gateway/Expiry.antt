-- ===== src/Gateway/Expiry.antt =====
-- What a wait leaves, and what the clean-up keeps: waitForResponse and cleanupExpiredRequests of
-- src/service_broker/Services/ServiceGateway.cpp.
use rdws_us.Prelude.{
  ℕ, ◌-◌, ◌≤◌, String, true, false, Option, none, some, [], ◌∷◌, ◌≡◌, refl, ◌==◌, arith,
  if◌then◌else◌, eq_iff, eq_refl, All, Bool-cases, inl, inr,
}
use rdws_us.Prelude.Floats.{Floats}
use rdws_us.Prelude.Table.{Table, text_key, lookup, lookup-erase, lookup-erase_self, Distinct}
use rdws_us.Json.{Json, get_string}
use rdws_us.Gateway.Types.{PendingRequest, Gateway, World, is_terminal}
use rdws_us.Gateway.Responses.{handle_response_message}
use rdws_us.Gateway.Waiting.{
  may_wake, finish_wait, time_out, request_not_found, expire, is_stale, expire_all,
  cleanup_expired_requests, retention,
}

-- A wait always ends with a terminal request, by whatever it was woken; the request and the waiter
-- are gone then, and every other slot is as it was.
pub finish_wait-IsTerminal :
    {D : Type 0} (now : ℕ) (id : String) (g : Gateway D)
    → let (result, g') = finish_wait now id g in
      (is_terminal result.state ≡ true)
      × ((j : String)
          → lookup j g'.pending_requests ≡ (if id == j then none else lookup j g.pending_requests))
      × (lookup id g'.response_waiters ≡ none)
unfolding finish_wait may_wake time_out request_not_found is_terminal
finish_wait-IsTerminal now id g = (
  ground arith,
  (λ j. ground (arith, lookup-erase id j g.pending_requests, eq_iff id j)),
  ground (arith, lookup-erase_self id g.response_waiters),
)

-- A wait that times out answers 504, and a response that comes later is refused and changes nothing.
pub handle_response_message-too_late :
    (F : Floats) (w : World F) (now : ℕ) (id : String) (message : Json F.D) (g : Gateway F.D)
    → get_string message "requestId" ≡ some id
    → let g' = (finish_wait now id g).1 in handle_response_message w message g' ≡ (false, g')
unfolding handle_response_message
handle_response_message-too_late F w now id message g named =
    let (_, slots, _) = finish_wait-IsTerminal now id g in ground (arith, slots id, eq_refl id)

pub expire_all-missing :
    (now : ℕ) (id : String) (m : Table String PendingRequest)
    → lookup id m ≡ none
    → lookup id (expire_all now m) ≡ none
unfolding expire_all lookup
expire_all-missing now id [] h = refl
expire_all-missing now id ((j, p) ∷ m) h = ground (arith, expire_all-missing now id m)

abbrev pub kept : ℕ → Option PendingRequest → Option PendingRequest
kept now none = none
kept now (some p) = if is_stale now (expire now p) then none else some (expire now p)

pub lookup-expire_all :
    (now : ℕ) (id : String) (m : Table String PendingRequest)
    → Distinct m
    → lookup id (expire_all now m) ≡ kept now (lookup id m)
unfolding expire_all lookup
lookup-expire_all now id [] d = refl
lookup-expire_all now id ((j, p) ∷ m) d =
    ground (arith, lookup-expire_all now id m d.1, eq_iff j id, expire_all-missing now id m, d.0)

-- The clean-up, request by request, where no id has two slots: one that is in flight for longer than its timeout times out with
-- 504, a terminal one that has not changed for five minutes is erased, all others stay as they are.
pub lookup-cleanup_expired_requests :
    {D : Type 0} (now : ℕ) (id : String) (g : Gateway D)
    → Distinct g.pending_requests
    → lookup id (cleanup_expired_requests now g).pending_requests
      ≡ kept now (lookup id g.pending_requests)
unfolding cleanup_expired_requests
lookup-cleanup_expired_requests now id g distinct =
    lookup-expire_all now id g.pending_requests distinct

-- In time: a request that is not terminal is no older than its timeout, and a terminal one has
-- changed within the last five minutes.
abbrev pub IsCurrent : ℕ → PendingRequest → Type 0
IsCurrent now p =
    if is_terminal p.state
    then (now - p.updated_at ≤ retention)
    else (now - p.created_at ≤ p.timeout)

expire-IsCurrent :
    (now : ℕ) (p : PendingRequest)
    → is_stale now (expire now p) ≡ false
    → IsCurrent now (expire now p)
unfolding time_out is_terminal
expire-IsCurrent now p h = ground arith

expire_all-AllCurrent :
    (now : ℕ) (m : Table String PendingRequest) → All (λ e. IsCurrent now e.1) (expire_all now m)
unfolding expire_all
expire_all-AllCurrent now [] = tt
expire_all-AllCurrent now ((id, p) ∷ m) = elim (Bool-cases (is_stale now (expire now p))) [
  | inl stale ↦ rw stale (expire_all-AllCurrent now m)
  | inr fresh ↦ rw fresh (expire-IsCurrent now p fresh, expire_all-AllCurrent now m)
]

-- After a clean-up no request is overdue: each one that is not terminal is within its timeout, and
-- each terminal one has changed within the last five minutes.
pub cleanup_expired_requests-NoneOverdue :
    {D : Type 0} (now : ℕ) (g : Gateway D)
    → All (λ e. IsCurrent now e.1) (cleanup_expired_requests now g).pending_requests
unfolding cleanup_expired_requests
cleanup_expired_requests-NoneOverdue now g = expire_all-AllCurrent now g.pending_requests

-- ===== src/Gateway/Steps.antt =====
-- The gateway as a state machine: the calls and the messages that src/service_broker/Services/
-- ServiceGateway.cpp handles one after the other, in any order.
use rdws_us.Prelude.{ℕ, String, Option, [], ◌≡◌, sym, subst}
use rdws_us.Prelude.Floats.{Floats}
use rdws_us.Prelude.Run.{done}
use rdws_us.Prelude.Table.{text_key, number_key}
use rdws_us.Json.{Json}
use rdws_us.Registry.{LoadBalancingStrategy}
use rdws_us.Gateway.Types.{Gateway, World}
use rdws_us.Gateway.Requests.{send_request}
use rdws_us.Gateway.Waiting.{begin_wait, finish_wait}
use rdws_us.Gateway.Connections.{
  handle_client_message, handle_new_connection, close_connection, health_round,
}
use rdws_us.Gateway.Slots.{IsSlotted, expire_all-IsSlotted}
use rdws_us.Gateway.Handlers.{
  Slotted, empty-IsSlotted, send-Slotted, client-Slotted, wake-Slotted, check-pending,
  close-Slotted,
}

module _ (F : Floats) where
  pub data Step (g g' : Gateway F.D) : Type 0 where
    sends :
        (w : World F) (capability : String) (payload : Json F.D) (strategy : LoadBalancingStrategy)
        → g' ≡ (send_request w capability payload strategy g).1
        → Step g g'
    handles :
        (w : World F) (fd : ℕ) (message : Option (Json F.D))
        → handle_client_message w fd message g ≡ done g'
        → Step g g'
    waits : (id : String) → g' ≡ begin_wait id g → Step g g'
    wakes : (now : ℕ) (id : String) → g' ≡ (finish_wait now id g).1 → Step g g'
    checks : (now : ℕ) → health_round now g ≡ done g' → Step g g'
    accepts :
        (now fd : ℕ) (address type : String)
        → g' ≡ handle_new_connection now fd address type g
        → Step g g'
    closes : (fd : ℕ) → close_connection fd g ≡ done g' → Step g g'

  -- The states that a gateway which starts without requests can come to.
  pub data Reached : Gateway F.D → Type 0 where
    start : (g : Gateway F.D) → g.pending_requests ≡ [] → Reached g
    step : {g g' : Gateway F.D} → Reached g → Step g g' → Reached g'

  Step-Slotted : (g t : Gateway F.D) → Step g t → Slotted F g → Slotted F t
  unfolding begin_wait handle_new_connection
  Step-Slotted g t (sends w capability payload strategy e) v =
      subst (Slotted F) (sym e) (send-Slotted F w capability payload strategy g v)
  Step-Slotted g t (handles w fd message e) v = client-Slotted F w fd message g t e v
  Step-Slotted g t (waits id e) v = subst (Slotted F) (sym e) v
  Step-Slotted g t (wakes now id e) v = subst (Slotted F) (sym e) (wake-Slotted F now id g v)
  Step-Slotted g t (checks now e) v =
      subst IsSlotted (sym (check-pending F now g t e))
        (expire_all-IsSlotted g.pending_requests v now)
  Step-Slotted g t (accepts now fd address type e) v = subst (Slotted F) (sym e) v
  Step-Slotted g t (closes fd e) v = close-Slotted F fd g t e v

  -- Over any sequence of requests, messages, waits, health checks, new and lost connections, from a
  -- gateway without requests: no id ever has two slots, and each slot holds the request of its id.
  pub Reached-Slotted : {g : Gateway F.D} → Reached g → Slotted F g
  Reached-Slotted (start g none_yet) = subst IsSlotted (sym none_yet) empty-IsSlotted
  Reached-Slotted (step {g} {g'} h s) = Step-Slotted g g' s (Reached-Slotted h)

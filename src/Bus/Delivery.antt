-- ===== src/Bus/Delivery.antt =====
-- Which handlers are called, in which order: publish, dispatch, workerLoop, stop and unsubscribe of
-- src/service_broker/Services/EventBus.cpp.
use rdws_us.Prelude.{
  String, Bool, true, false, List, [], ◌∷◌, ◌++◌, ◌≡◌, refl, sym, ap, ◌∙◌, ◌==◌, ◌||◌, map, keep_if,
  arith, ltb, length, erase_if, any_of, count_if, All, Bool-cases, inl, inr, length-erase_if-le,
}
use rdws_us.Json.{Json}
use rdws_us.Bus.Defs.{
  Subscription, QueuedEvent, EventBus, Handled, wants, unsubscribe, publish, subscriber_count,
  dispatch, drain, work, stop,
}
use mathlib.Core.List.{append_assoc, append-nil}

erase_if-found :
    {A : Type 0} (p : A → Bool) (xs : List A)
    → ltb (length (erase_if p xs)) (length xs) ≡ any_of p xs
unfolding erase_if any_of
erase_if-found p [] = refl
erase_if-found p (x ∷ xs) = ground (arith, erase_if-found p xs, length-erase_if-le p xs)

module _ {D : Type 0} where
  length-dispatch_to :
      (ev : QueuedEvent D) (subs : List Subscription)
      → length (dispatch ev subs) ≡ count_if (wants ev.topic) subs
  unfolding dispatch count_if
  length-dispatch_to ev [] = refl
  length-dispatch_to ev (s ∷ subs) = ground (arith, length-dispatch_to ev subs)

  -- Each event calls as many handlers as subscriberCount says for its topic.
  pub length-dispatch :
      (ev : QueuedEvent D) (b : EventBus D)
      → length (dispatch ev b.subscriptions) ≡ subscriber_count ev.topic b
  unfolding subscriber_count
  length-dispatch ev b = length-dispatch_to ev b.subscriptions

  drain-append :
      (xs ys : List (QueuedEvent D)) (subs : List Subscription)
      → drain (xs ++ ys) subs ≡ drain xs subs ++ drain ys subs
  unfolding drain
  drain-append [] ys subs = refl
  drain-append (ev ∷ xs) ys subs =
      ap (λ l. dispatch ev subs ++ l) (drain-append xs ys subs)
      ∙ sym (append_assoc (dispatch ev subs) (drain xs subs) (drain ys subs))

  -- The calls for one event: of each subscriber of its topic or of "*", in the order of subscription.
  abbrev pub calls_for : QueuedEvent D → List Subscription → List (Handled D)
  calls_for ev subs =
      map (λ s. record { subscription = s.id; event = ev })
        (keep_if (λ s. s.topic == ev.topic || s.topic == "*") subs)

  -- The calls for each event, in the order of the events.
  abbrev pub calls_for_all : List (QueuedEvent D) → List Subscription → List (Handled D)
  calls_for_all [] subs = []
  calls_for_all (ev ∷ events) subs = calls_for ev subs ++ calls_for_all events subs

  dispatch-eq-calls_for :
      (ev : QueuedEvent D) (subs : List Subscription) → dispatch ev subs ≡ calls_for ev subs
  unfolding dispatch keep_if
  dispatch-eq-calls_for ev [] = refl
  dispatch-eq-calls_for ev (s ∷ subs) = elim (Bool-cases (wants ev.topic s)) [
    | inl hit ↦
        rw hit
          (ap (λ l. record { subscription = s.id; event = ev } ∷ l) (dispatch-eq-calls_for ev subs))
    | inr miss ↦ rw miss (dispatch-eq-calls_for ev subs)
  ]

  drain-eq-calls_for_all :
      (events : List (QueuedEvent D)) (subs : List Subscription)
      → drain events subs ≡ calls_for_all events subs
  unfolding drain
  drain-eq-calls_for_all [] subs = refl
  drain-eq-calls_for_all (ev ∷ events) subs =
      ap (λ l. l ++ drain events subs) (dispatch-eq-calls_for ev subs)
      ∙ ap (λ l. calls_for ev subs ++ l) (drain-eq-calls_for_all events subs)

  -- First in, first out: on a bus that runs, each subscriber of the topic of an event or of "*" is
  -- called for it, in the order of subscription, for the events that were queued in their order and
  -- for the one that is published last after them; the queue is empty then.
  pub work-publish :
      (topic : String) (payload : Json D) (b : EventBus D)
      → b.running ≡ true
      → ((work (publish topic payload b)).0
          ≡ (work b).0 ++ calls_for (record { topic = topic; payload = payload }) b.subscriptions)
        × ((work b).0 ≡ calls_for_all b.event_queue b.subscriptions)
        × ((work (publish topic payload b)).1.event_queue ≡ [])
  unfolding work publish drain
  work-publish topic payload b runs =
      let ev : QueuedEvent D = record { topic = topic; payload = payload } in
      rw runs (
        drain-append b.event_queue (ev ∷ []) b.subscriptions
            ∙ ap (λ l. drain b.event_queue b.subscriptions ++ l)
                (append-nil (dispatch ev b.subscriptions)
                  ∙ dispatch-eq-calls_for ev b.subscriptions),
        drain-eq-calls_for_all b.event_queue b.subscriptions,
        refl,
      )

  -- A bus that stops handles all that is queued, and keeps nothing; what is published afterwards is
  -- dropped, and a second stop handles nothing.
  pub stop-Drains :
      (b : EventBus D)
      → b.running ≡ true
      → let (handled, b') = stop b in
        (handled ≡ drain b.event_queue b.subscriptions)
        × (b'.event_queue ≡ [])
        × ((topic : String) (payload : Json D) → publish topic payload b' ≡ b')
        × (stop b' ≡ ([], b'))
  unfolding stop work publish
  stop-Drains b runs = rw runs (refl, refl, (λ topic payload. refl), refl)

  dispatch-erase_if :
      (id : String) (subs : List Subscription) (ev : QueuedEvent D)
      → All (λ h. (h.subscription == id) ≡ false) (dispatch ev (erase_if (λ s. s.id == id) subs))
  unfolding dispatch erase_if
  dispatch-erase_if id [] ev = tt
  dispatch-erase_if id (s ∷ subs) ev = elim (Bool-cases (s.id == id)) [
    | inl same ↦ rw same (dispatch-erase_if id subs ev)
    | inr other ↦ rw other (elim (Bool-cases (wants ev.topic s)) [
      | inl hit ↦ rw hit (other, dispatch-erase_if id subs ev)
      | inr miss ↦ rw miss (dispatch-erase_if id subs ev)
    ])
  ]

  -- After unsubscribe no event calls a handler under that id; the answer says whether there was one.
  pub unsubscribe-Silences :
      (id : String) (b : EventBus D)
      → let (found, b') = unsubscribe id b in
        ((ev : QueuedEvent D)
          → All (λ h. (h.subscription == id) ≡ false) (dispatch ev b'.subscriptions))
        × (found ≡ any_of (λ s. s.id == id) b.subscriptions)
  unfolding unsubscribe
  unsubscribe-Silences id b = (
    (λ ev. dispatch-erase_if id b.subscriptions ev),
    erase_if-found (λ s. s.id == id) b.subscriptions,
  )

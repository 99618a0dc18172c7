-- ===== src/Bus/Defs.antt =====
-- The members of src/service_broker/Services/EventBus.cpp.
use rdws_us.Prelude.{
  ℕ, ◌+◌, String, Bool, true, false, not, ◌&&◌, ◌||◌, List, [], ◌∷◌, ◌++◌, map, ◌==◌, if◌then◌else◌,
  ltb, length, erase_if, count_if, any_of, value_or,
}
use rdws_us.Prelude.Int.{pos}
use rdws_us.Prelude.Table.{Table, text_key, lookup, insert}
use rdws_us.Json.{Json, int, object}

pub record Subscription : Type 0 where
  pub id : String
  pub topic : String

pub record QueuedEvent (D : Type 0) : Type 0 where
  pub topic : String
  pub payload : Json D

pub record EventBus (D : Type 0) : Type 0 where
  pub subscriptions : List Subscription
  pub event_queue : List (QueuedEvent D)
  pub running : Bool

-- One call of the handler of a subscription.
pub record Handled (D : Type 0) : Type 0 where
  pub subscription : String
  pub event : QueuedEvent D

abbrev pub wants : String → Subscription → Bool
wants topic s = s.topic == topic || s.topic == "*"

topics_from : List String → List Subscription → List String
topics_from topics [] = topics
topics_from topics (s ∷ subscriptions) =
    topics_from
      (if not (s.topic == "*") && not (any_of (λ t. t == s.topic) topics)
        then topics ++ s.topic ∷ []
        else topics)
      subscriptions

topic_counts : Table String ℕ → List Subscription → Table String ℕ
topic_counts counts [] = counts
topic_counts counts (s ∷ subscriptions) =
    topic_counts (insert s.topic (value_or (lookup s.topic counts) 0 + 1) counts) subscriptions

module _ {D : Type 0} where
  unfoldable pub start : EventBus D → EventBus D
  start b = record b { running = true }

  unfoldable pub subscribe : String → String → EventBus D → EventBus D
  subscribe id topic b = record b {
    subscriptions = b.subscriptions ++ record { id = id; topic = topic } ∷ [];
  }

  unfoldable pub unsubscribe : String → EventBus D → Bool × EventBus D
  unsubscribe id b =
      let rest = erase_if (λ s. s.id == id) b.subscriptions in
      (ltb (length rest) (length b.subscriptions), record b { subscriptions = rest })

  -- An event that is published while the bus does not run is dropped.
  unfoldable pub publish : String → Json D → EventBus D → EventBus D
  publish topic payload b =
      if b.running
      then record b {
        event_queue = b.event_queue ++ record { topic = topic; payload = payload } ∷ [];
      }
      else b

  unfoldable pub list_topics : EventBus D → List String
  unfolding topics_from
  list_topics b = topics_from [] b.subscriptions

  unfoldable pub subscriber_count : String → EventBus D → ℕ
  subscriber_count topic b = count_if (wants topic) b.subscriptions

  unfoldable pub stats : EventBus D → Json D
  unfolding topic_counts
  stats b = object (
      ("totalSubscriptions", int (pos (length b.subscriptions)))
      ∷ ("topics", object (map (λ e. (e.0, int (pos e.1))) (topic_counts [] b.subscriptions)))
      ∷ [])

  -- An exception of a handler is swallowed, and the others are called all the same.
  unfoldable pub dispatch : QueuedEvent D → List Subscription → List (Handled D)
  dispatch ev [] = []
  dispatch ev (s ∷ subscriptions) =
      if wants ev.topic s
      then record { subscription = s.id; event = ev } ∷ dispatch ev subscriptions
      else dispatch ev subscriptions

  -- The inner loop of workerLoop, while no other thread writes.
  unfoldable pub drain : List (QueuedEvent D) → List Subscription → List (Handled D)
  drain [] subscriptions = []
  drain (ev ∷ events) subscriptions = dispatch ev subscriptions ++ drain events subscriptions

  unfoldable pub work : EventBus D → List (Handled D) × EventBus D
  unfolding drain dispatch
  work b = (drain b.event_queue b.subscriptions, record b { event_queue = [] })

  -- The flag falls, and the worker is joined: it drains what is left.
  unfoldable pub stop : EventBus D → List (Handled D) × EventBus D
  stop b = if b.running then work (record b { running = false }) else ([], b)

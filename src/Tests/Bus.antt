-- ===== src/Tests/Bus.antt =====
-- Events on a bus with two subscriptions.
use rdws_us.Prelude.{[], ℕ, ◌++◌, ◌≡◌, refl}
use rdws_us.Prelude.Int.{pos}
use rdws_us.Json.{int}
use rdws_us.Bus.{QueuedEvent, publish, work}
use rdws_us.Bus.Delivery.{calls_for, calls_for_all, work-publish}
use rdws_us.Tests.Data.{bus}

abbrev event : QueuedEvent ℕ
event = record { topic = "a"; payload = int (pos 2) }

work-publish_example :
    ((work (publish "a" (int (pos 2)) bus)).0 ≡ (work bus).0 ++ calls_for event bus.subscriptions)
    × ((work bus).0 ≡ calls_for_all bus.event_queue bus.subscriptions)
    × ((work (publish "a" (int (pos 2)) bus)).1.event_queue ≡ [])
work-publish_example = work-publish "a" (int (pos 2)) bus refl

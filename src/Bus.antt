-- ===== src/Bus.antt =====
-- src/service_broker/Services/EventBus.h and EventBus.cpp. A handler is known by its subscription;
-- what the worker thread does is the list of its calls of handlers, in order.
mod Defs
pub mod Delivery
unfoldable pub use Defs.*

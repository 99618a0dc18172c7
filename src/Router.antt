-- ===== src/Router.antt =====
-- src/service_broker/Services/EventRouter.h and EventRouter.cpp. The id and the time that a write
-- takes are arguments; the rules file is the field `file`, the document that was last written.
pub mod Codec
mod Defs
pub mod Path
pub mod Order
pub mod Resolve
pub mod Rules
pub mod Persistence
unfoldable pub use Defs.*

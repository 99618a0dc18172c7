-- ===== src/Config.antt =====
-- src/service_broker/Config/GatewayConfig.h and GatewayConfig.cpp. The file behind `persistPath_` is
-- the field `file`, the document that was last written to it; whether it can be written is an
-- argument. The order of the members that an unordered map is written in is that of a table.
mod Defs
pub mod Lookup
pub mod Persistence
unfoldable pub use Defs.*

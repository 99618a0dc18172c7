-- ===== src/Senml.antt =====
-- src/shared/senml/: SenML packs, units, and the trigger rules of a station's configuration.
pub mod Parse
pub mod Resolve
pub mod Units
pub mod Trigger
pub mod Channels
pub mod Delivery

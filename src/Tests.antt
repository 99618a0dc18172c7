-- ===== src/Tests.antt =====
-- The theorems at concrete inputs.
mod Data
mod Registry
mod Router
mod Config
mod Gateway
mod Bus
mod Auth
mod Http
mod Metrics
mod Senml
mod Ingestion

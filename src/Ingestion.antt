-- ===== src/Ingestion.antt =====
-- src/services/ingestion_service/AppIngestionService.cpp: packs of a device's readings on their way
-- to the queues. CoAP, DTLS and RabbitMQ are outside; whether a queue takes a message is an argument.
pub mod Defs
pub mod Handlers
pub mod Readings
pub mod Published
pub mod Promise
pub mod Safety
pub mod Span
pub mod Caches

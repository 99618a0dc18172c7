-- ===== src/Writer.antt =====
-- src/services/reading_writer_service/AppReadingWriterService.cpp: what the queues deliver on its way
-- to the database. PostgreSQL and RabbitMQ are outside; how they answer is an argument.
pub mod Defs
pub mod Durable
pub mod Pace
pub mod Arrival

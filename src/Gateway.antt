-- ===== src/Gateway.antt =====
-- src/service_broker/Services/ServiceGateway.h and ServiceGateway.cpp: connections, the requests in
-- flight and the protocol handlers. A handler is a function of the gateway; what it sends is added
-- to `sent`. A thread that waits for a response is `begin_wait`, the calls that other threads make
-- meanwhile, and `finish_wait`.
pub mod Types
pub mod Requests
pub mod Responses
pub mod Waiting
pub mod Connections
pub mod Targets
pub mod Sending
pub mod Correlation
pub mod Expiry
pub mod Disconnect
pub mod Accepting
pub mod Identifying
pub mod Lifecycle
pub mod Slots
pub mod Handlers
pub mod Steps

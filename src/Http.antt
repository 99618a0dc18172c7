-- ===== src/Http.antt =====
-- src/service_broker/HttpGateway.cpp: the document that a request becomes, and whom the services see
-- as its sender. The routes and cpp-httplib are outside.
pub mod Request
pub mod Actor

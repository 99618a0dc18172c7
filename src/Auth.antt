-- ===== src/Auth.antt =====
-- src/service_broker/Auth/AuthMiddleware.h and AuthMiddleware.cpp. HMAC is OpenSSL's and the JSON
-- parser rapidjson's: both are arguments. Tokens are ASCII.
pub mod Access
pub mod Base64
pub mod Admission
pub mod Equality
pub mod Identity
pub mod Issue
pub mod RoundTrip

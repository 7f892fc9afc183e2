-- ===== src/Coap.antt =====
-- crates/kipuka-coap: the CoAP transport (RFC 7252, RFC 7959) of the EST server.
pub mod Error
pub mod Block
pub mod Message
pub mod Router
pub mod Server
pub mod Sessions

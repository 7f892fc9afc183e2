-- ===== src/Coap/Server.antt =====
-- `CoapDtlsServer` of crates/kipuka-coap/src/server.rs, for one datagram at a time. The DTLS
-- connection, the EST handler and the clock are arguments.
pub mod State
pub mod Handle
pub mod Receive
pub mod Evolves
pub mod Dispatch
pub mod Outcome
pub mod Once
pub mod Bounds
pub mod Replies
mod Examples

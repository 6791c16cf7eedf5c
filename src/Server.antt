-- ===== src/Server.antt =====
-- src/server/mod.rs: the server's state, its connection manager and the handlers of its service.
pub mod HashMap
pub mod Connections
pub mod Subscriptions
pub mod Service
pub mod Setup

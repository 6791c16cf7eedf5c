-- ===== src/Client.antt =====
-- src/client: the handlers that run on the measuring nodes.
pub mod Handlers
pub mod Inbound
pub mod Outbound
pub mod Tasks
pub mod Setup

-- ===== src/Rpc.antt =====
-- The JSON-RPC layer, src/codex_agent_sdk/rpc.
pub mod Envelope
pub mod Requests
pub mod Stream
pub mod Filter
pub mod Notifications
pub mod ServerRequests
pub mod Dispatcher
pub mod Connection

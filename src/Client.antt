-- ===== src/Client.antt =====
-- src/codex_agent_sdk/client.py: the low-level client's handshake, and the turn streams of the
-- high-level client.
pub mod Handshake
pub mod TurnStream
pub mod Turns

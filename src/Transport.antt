-- ===== src/Transport.antt =====
-- src/codex_agent_sdk/transport/stdio.py: newline-delimited frames over the pipes of a subprocess.
pub mod Frames
pub mod Envelopes
pub mod Process

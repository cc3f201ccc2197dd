-- ===== src/TurnAggregation.antt =====
-- src/codex_agent_sdk/_turn_aggregation.py: what a turn's events add up to.
pub mod State
pub mod Build
pub mod Ids
pub mod Texts
pub mod Slots
pub mod Reads

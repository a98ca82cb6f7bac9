-- ===== src/Multiagent.antt =====
-- pkg/multiagent: what agents that start other agents share.
pub mod Dedup
pub mod Announce
pub mod Cascade
pub mod Spawn
pub mod Blackboard
pub mod Handoff
mod Tests

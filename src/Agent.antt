-- ===== src/Agent.antt =====
-- pkg/agent: the histories that are sent to a provider.
pub mod History
pub mod Summarize

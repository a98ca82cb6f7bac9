-- ===== src/Providers.antt =====
-- pkg/providers: errors, cooldowns and model fallback.
pub mod Types
pub mod Cooldown
pub mod ModelRef
pub mod Classify
pub mod Fallback
pub mod AuthRotation
pub mod ToolCall

-- ===== src/Tools.antt =====
-- pkg/tools: what guards the calls of tools.
pub mod LoopDetector
pub mod Registry
pub mod Autonomy
pub mod Guarded
pub mod ToolLoop
mod Tests

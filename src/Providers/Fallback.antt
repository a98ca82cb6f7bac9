-- ===== src/Providers/Fallback.antt =====
-- pkg/providers/fallback.go: the candidates, and the chains over them.
pub mod Candidates
pub mod Chain
pub mod Image
mod Tests

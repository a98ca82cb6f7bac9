-- ===== src/Channels.antt =====
-- pkg/channels: what the channels have in common.
pub mod Split

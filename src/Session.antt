-- ===== src/Session.antt =====
-- pkg/session: the conversations that are kept, by their keys.
pub mod Manager

-- ===== src/Common/Text.antt =====
-- Texts as lists of ASCII codes, and what the program uses of Go's package strings.
mod Defs
mod Trim
mod Filled
unfoldable pub use Defs.*
pub use Trim.*
pub use Filled.*

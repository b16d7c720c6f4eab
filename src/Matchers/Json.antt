-- ===== src/Matchers/Json.antt =====
-- internal/matchers/jsonunit.go and matchers.go: JSON documents, placeholders and their comparison.
mod Defs
pub mod Numbers
pub mod Rounds
pub mod Placeholders
pub mod Rows
pub mod Relaxed
pub mod Reordered
unfoldable pub use Defs.*

-- ===== src/Match/Select.antt =====
-- internal/match/snapshot.go: `Match`.
mod Defs
pub mod Keeps
pub mod Target
pub mod Merge
pub mod Linear
pub mod Correct
unfoldable pub use Defs.*

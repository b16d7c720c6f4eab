-- ===== src/Match/Snapshot.antt =====
-- internal/match/snapshot.go: the immutable serving state and how it is built.
mod Defs
pub mod Index
pub mod Order
unfoldable pub use Defs.*

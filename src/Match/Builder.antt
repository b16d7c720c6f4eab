-- ===== src/Match/Builder.antt =====
-- internal/match: the builder, the one writer of the served snapshot.
mod Defs
pub mod Reuse
pub mod Rebuild
pub mod Placed
pub mod Splice
unfoldable pub use Defs.*

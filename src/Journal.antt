-- ===== src/Journal.antt =====
-- internal/journal: recording the requests served.
mod Defs
pub mod Accounting
mod Recording
pub mod Conservation
unfoldable pub use Defs.*
unfoldable pub use Recording.*

-- ===== src/Stub/FileName.antt =====
-- internal/stub/filename.go: which names a file may have.
mod Defs
pub mod Paths
pub mod Cleaned
pub mod Grammar
unfoldable pub use Defs.*

-- ===== src/Admin/Files.antt =====
-- internal/admin/files.go: the files that bodies are taken from.
mod Defs
pub mod RoundTrip
unfoldable pub use Defs.*

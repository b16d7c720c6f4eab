-- ===== src/Admin/Requests.antt =====
-- internal/admin/requests.go: the queries of recorded requests.
mod Defs
pub mod Stored
pub mod Picked
pub mod Asking
pub mod Removed
unfoldable pub use Defs.*

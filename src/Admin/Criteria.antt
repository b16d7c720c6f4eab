-- ===== src/Admin/Criteria.antt =====
-- internal/admin/criteria.go: request patterns on recorded requests.
mod Defs
pub mod Headers
pub mod Target
pub mod Parts
pub mod Agrees
unfoldable pub use Defs.*

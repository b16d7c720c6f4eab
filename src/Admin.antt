-- ===== src/Admin.antt =====
-- internal/admin: the handlers that write mappings, over a store and the builder of their pod.
mod Defs
mod Mappings
mod Import
mod Metadata
pub mod Criteria
pub mod Requests
pub mod Files
pub mod Memory
pub mod Clean
pub mod Rejected
pub mod Written
pub mod Update
pub mod ImportOrder
unfoldable pub use Defs.*
unfoldable pub use Mappings.*
unfoldable pub use Import.*
unfoldable pub use Metadata.*

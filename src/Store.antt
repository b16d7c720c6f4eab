-- ===== src/Store.antt =====
-- internal/store: the documents, the errors and the in-memory driver.
mod Defs
pub mod Memory
pub use Defs.*

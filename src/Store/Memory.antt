-- ===== src/Store/Memory.antt =====
-- internal/store/memory/memory.go: the in-process driver. Every method holds the store's mutex from
-- beginning to end, so that a method is one step on the state.
mod Defs
pub mod Lifetime
pub mod Scenario
pub mod Journal
pub mod Query
unfoldable pub use Defs.*

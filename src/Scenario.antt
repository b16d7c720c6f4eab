-- ===== src/Scenario.antt =====
-- internal/scenario: stateful mocks, whose state lives in the store.
mod Defs
pub mod Gate
pub mod Gated
pub mod Race
pub mod Tokens
pub mod Uncontended
unfoldable pub use Defs.*

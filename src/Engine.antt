-- ===== src/Engine.antt =====
-- internal/match/engine.go: the handler of the mock port.
mod Body
mod Defs
pub mod Capped
pub mod Scan
pub mod Advance
unfoldable pub use Body.*
unfoldable pub use Defs.*

-- ===== src/Matchers/Pairing.antt =====
-- internal/matchers/matchers.go: pairing the elements of two arrays whose order is ignored.
mod Defs
pub mod Finite
pub mod Moves
pub mod Augment
pub mod Stuck
pub mod Complete
pub mod Choice
pub mod Correct
unfoldable pub use Defs.*

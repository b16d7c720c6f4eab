-- ===== src/Matchers/Criteria.antt =====
-- internal/matchers/matchers.go, multivalue.go and subject.go: criteria applied to subjects.
mod Subjects
mod Defs
pub mod Values
pub mod Absence
pub mod DeMorgan
unfoldable pub use Subjects.*
unfoldable pub use Defs.*

-- ===== src/Config/Size.antt =====
-- internal/config/types.go: `Bytes`, a count of bytes with an optional IEC suffix.
mod Defs
pub mod Decimal
pub mod Suffixes
pub mod RoundTrip
unfoldable pub use Defs.*

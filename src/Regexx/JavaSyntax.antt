-- ===== src/Regexx/JavaSyntax.antt =====
-- internal/regexx/javasyntax.go: the rewriting of Java patterns.
mod Ranges
mod Escapes
mod Rewrite
mod Scan
pub mod Copies
pub mod Rounds
pub mod Faithful
pub mod Complement
pub mod Unbounded
unfoldable pub use Ranges.*
unfoldable pub use Escapes.*
unfoldable pub use Rewrite.*
unfoldable pub use Scan.*

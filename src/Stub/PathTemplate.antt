-- ===== src/Stub/PathTemplate.antt =====
-- internal/stub/pathtemplate.go: URL path templates such as /orders/{id}/items/{itemId}.
pub mod Fits
pub mod Keeps
pub mod Prefix
pub mod Parse
pub mod RoundTrip
unfoldable pub use Defs.*
mod Defs

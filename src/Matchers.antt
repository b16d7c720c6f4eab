-- ===== src/Matchers.antt =====
-- internal/matchers: the criteria that a stub's compiled form holds.
pub mod Pairing
pub mod Json
pub mod Charset
pub mod Criteria

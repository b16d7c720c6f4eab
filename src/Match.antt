-- ===== src/Match.antt =====
-- internal/match: requests, the snapshot and the choice of the stub that serves.
pub mod Request
pub mod FullMatch
pub mod Snapshot
pub mod Select
pub mod Builder

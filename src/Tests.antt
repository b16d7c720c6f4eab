-- ===== src/Tests.antt =====
-- The development's definitions and theorems on concrete data.
mod Fixtures
mod Matching
mod Building
mod Stateful
mod Criteria
mod Administration
mod Serving
mod Patterns
mod Verifying

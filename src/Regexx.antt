-- ===== src/Regexx.antt =====
-- internal/regexx: patterns on their way to a regular-expression engine.
pub mod JavaSyntax

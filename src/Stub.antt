-- ===== src/Stub.antt =====
-- internal/stub.
pub mod PathTemplate
pub mod FileName
mod Compiled
pub use Compiled.{
  Subject, key_values, body, single_value, document, Matcher, PatternMatcher, KeyCriterion,
  ScenarioRef, UrlKind, CompiledResponse, CompiledStub, basic_auth_prefix, non_empty,
}
unfoldable pub use Compiled.{matches_method, has_criteria_beyond_url}

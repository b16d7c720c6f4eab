-- ===== src/Stub/Compiled.antt =====
-- internal/stub: the compiled form of a mapping, as snapshots hold it.
-- Fields that no modelled code reads (raw JSON, metadata, templates) are left out.
use mockulus.Prelude.{ℕ, Bool, true, false, ◌||◌, Option, none, some, List, [], ◌∷◌}
use mockulus.Prelude.{Text, codes, text_eq}
use mockulus.Prelude.Int.{ℤ}
use mockulus.Stub.PathTemplate.{PathTemplate}

-- internal/matchers: what a criterion is applied to. A key is present or not, with its values and
-- whether its absence fails negative matchers too; a body is its bytes and its Content-Type; a single
-- value is one of those of a repeated key, and a document the bytes of a stub's metadata.
pub data Subject : Type 0 where
  key_values : (present : Bool) → (values : List Text) → (strict_absence : Bool) → Subject
  body : (raw : Text) → (content_type : Text) → Subject
  single_value : Text → Subject
  document : (raw : Text) → Subject

-- The interface `Matcher`.
pub record Matcher : Type 0 where
  pub matches : Subject → Bool
  pub describe : Text

-- The interface `PatternMatcher`: a compiled regular expression.
pub record PatternMatcher : Type 0 where
  pub match_string : Text → Bool
  pub source : Text

pub record KeyCriterion : Type 0 where
  pub name : Text
  pub matcher : Matcher

pub record ScenarioRef : Type 0 where
  pub name : Text
  pub required_state : Text
  pub new_state : Text

-- The URL kinds; `other` is any further value of the `uint8`.
pub data UrlKind : Type 0 where
  any exact_full exact_path pattern_full pattern_path template other : UrlKind

pub record CompiledResponse : Type 0 where
  pub status : ℕ
  pub body : Text
  pub body_file_name : Text
  pub body_file_missing : Bool
  pub fixed_delay : ℕ
  pub fixed_delay_set : Bool

-- `url_regex` is read for the pattern kinds alone and `path_template` for the template kind alone.
pub record CompiledStub : Type 0 where
  pub id : Text
  pub name : Text
  pub priority : ℤ
  pub persistent : Bool
  pub seq : ℕ
  pub method : Text
  pub url_kind : UrlKind
  pub url_literal : Text
  pub url_regex : PatternMatcher
  pub path_template : PathTemplate
  pub literal_prefix : Text
  pub host : Option Matcher
  pub port : Option Matcher
  pub scheme : Option Matcher
  pub headers : List KeyCriterion
  pub query : List KeyCriterion
  pub cookies : List KeyCriterion
  pub form : List KeyCriterion
  pub path_params : List KeyCriterion
  pub basic_auth : Text
  pub body_matchers : List Matcher
  pub scenario : Option ScenarioRef
  pub response : CompiledResponse

unfoldable pub matches_method : CompiledStub → Text → Bool
matches_method cs method = text_eq cs.method [] || text_eq cs.method method

abbrev pub non_empty {ℓ} : {A : Type ℓ} → List A → Bool
non_empty [] = false
non_empty (x ∷ xs) = true

abbrev present {ℓ} : {A : Type ℓ} → Option A → Bool
present none = false
present (some a) = true

unfoldable pub has_criteria_beyond_url : CompiledStub → Bool
has_criteria_beyond_url cs =
    non_empty cs.headers
    || (non_empty cs.query
        || (non_empty cs.cookies
            || (non_empty cs.form
                || (non_empty cs.path_params
                    || (non_empty cs.body_matchers
                        || (non_empty cs.basic_auth
                            || (present cs.host || (present cs.port || present cs.scheme))))))))

abbrev pub basic_auth_prefix : Text
basic_auth_prefix = codes "Basic "

-- ===== src/Match/Request.antt =====
-- internal/match/request.go and internal/httpx/httpx.go: the request as the matcher sees it.
-- The parsed forms of the query, the cookies and the form are functions of the request, so each
-- stands for its lazily filled map; the pooling of requests is not modelled.
use mockulus.Prelude.{
  ℕ, Bool, true, false, Option, none, some, List, [], ◌∷◌, Text, codes, text_eq, cut_byte,
  if◌then◌else◌, ◌==◌, ◌||◌,
}
use mockulus.Prelude.Map.{Map, lookup, insert}
use mockulus.Stub.{Subject, key_values, body}

-- A map from names to values, `none` where the name is not there.
abbrev pub Values : Type 0
Values = Text → Option (List Text)

-- Why a scenario's state could not be read.
pub data ReadError : Type 0 where
  unavailable : ReadError

pub record ParsedRequest : Type 0 where
  pub method : Text
  pub path : Text
  pub full_url : Text
  -- `http.Header.Values`, `none` for nil
  pub header : Values
  pub raw_body : Text
  pub content_type : Text
  pub raw_host : Text
  pub is_tls : Bool
  pub query : Values
  pub cookies : Values
  pub form : Values
  pub path_vars : Map Text
  pub scenario_states : Map Text
  pub scenario_err : Option ReadError

-- `bind`: the path in front of the first `?`, and the target without a `?` that ends it.
unfoldable pub path_of : Text → Text
path_of target = elim (cut_byte b'?' target) [ none ↦ target | some (before, after) ↦ before ]

unfoldable pub full_url_of : Text → Text
full_url_of target = elim (cut_byte b'?' target) [
  | none ↦ target
  | some (before, after) ↦ if text_eq after [] then before else target
]

contains_byte : ℕ → Text → Bool
contains_byte b [] = false
contains_byte b (c ∷ s) = (c == b) || contains_byte b s

-- The text before the last byte `b` and the text behind it.
cut_last_byte : ℕ → Text → Option (Text × Text)
cut_last_byte b [] = none
cut_last_byte b (c ∷ s) = elim (cut_last_byte b s) [
  | some (before, after) ↦ some (c ∷ before, after)
  | none ↦ if c == b then some ([], s) else none
]

-- `SplitHostPort`: a colon with no bracket behind it separates the port.
unfoldable pub split_host_port : Text → Text × Text
unfolding cut_last_byte contains_byte
split_host_port h = elim (cut_last_byte b':' h) [
  | none ↦ (h, [])
  | some (before, after) ↦ if contains_byte b']' after then (h, []) else (before, after)
]

unfoldable pub scheme_of : Bool → Text
scheme_of true = codes "https"
scheme_of false = codes "http"

present : Option (List Text) → Bool
present none = false
present (some vs) = true

values : Option (List Text) → List Text
values none = []
values (some vs) = vs

-- `keyScratch.Set(present, values)`
unfoldable pub key_subject : Option (List Text) → Subject
unfolding present values
key_subject vs = key_values (present vs) (values vs) false

-- The first failure is kept.
abbrev pub first_error : ReadError → Option ReadError → ReadError
first_error err none = err
first_error err (some first) = first

module _ (r : ParsedRequest) where
  unfoldable pub host_subject : Subject
  unfolding split_host_port
  host_subject = key_values true ((split_host_port r.raw_host).0 ∷ []) false

  unfoldable pub port_subject : Subject
  unfolding split_host_port
  port_subject = key_values true ((split_host_port r.raw_host).1 ∷ []) false

  unfoldable pub scheme_subject : Subject
  unfolding scheme_of
  scheme_subject = key_values true (scheme_of r.is_tls ∷ []) false

  unfoldable pub header_subject : Text → Subject
  unfolding key_subject
  header_subject name = key_subject (r.header name)

  unfoldable pub query_subject : Text → Subject
  unfolding key_subject
  query_subject name = key_subject (r.query name)

  -- An absent cookie fails a negative matcher too.
  unfoldable pub cookie_subject : Text → Subject
  unfolding present values
  cookie_subject name = key_values (present (r.cookies name)) (values (r.cookies name)) true

  unfoldable pub form_subject : Text → Subject
  unfolding key_subject
  form_subject name = key_subject (r.form name)

  unfoldable pub path_var_subject : Text → Subject
  path_var_subject name = elim (lookup name r.path_vars) [
    | none ↦ key_values false [] false
    | some v ↦ key_values true (v ∷ []) false
  ]

  unfoldable pub body_subject : Subject
  body_subject = body r.raw_body r.content_type

  abbrev pub bind_path_var : Text → Text → ParsedRequest
  bind_path_var name value = record r { path_vars = insert name value r.path_vars }

  abbrev pub clear_path_vars : ParsedRequest
  clear_path_vars = record r { path_vars = [] }

  abbrev pub memoize_scenario_state : Text → Text → ParsedRequest
  memoize_scenario_state name state = record r {
    scenario_states = insert name state r.scenario_states;
  }

  unfoldable pub fail_scenario_read : ReadError → ParsedRequest
  fail_scenario_read err = record r { scenario_err = some (first_error err r.scenario_err) }

-- ===== src/Admin/Criteria/Defs.antt =====
-- internal/admin/criteria.go: `criteria.matches`, and how it reads what was recorded. The loop over a
-- map for a name in another spelling takes the first that it comes to.
use mockulus.Prelude.{
  ℕ, ◌+◌, Bool, true, false, ◌&&◌, Option, none, some, List, [], ◌∷◌, Text, codes, text_eq,
  cut_byte, if◌then◌else◌, ◌==◌, leb,
}
use mockulus.Prelude.Map.{Map, lookup}
use mockulus.Stub.{Subject, key_values, body, UrlKind, CompiledStub, matches_method}
use mockulus.Stub.PathTemplate.{match_path}
use mockulus.Match.FullMatch.{all_keys, all_bodies}
use mockulus.Matchers.Json.{Json, Elements, string, array, object, nil, cons, find}
use mockulus.Journal.{EventRequest}

abbrev pub lower : ℕ → ℕ
lower c = if leb b'A' c && leb c b'Z' then c + 32 else c

-- `equalFold`; texts of different lengths differ.
unfoldable pub equal_fold : Text → Text → Bool
equal_fold [] [] = true
equal_fold [] (b ∷ t) = false
equal_fold (a ∷ s) [] = false
equal_fold (a ∷ s) (b ∷ t) = (lower a == lower b) && equal_fold s t

-- The path of a recorded URL, in front of the first `?`.
unfoldable pub recorded_path : Text → Text
recorded_path url = elim (cut_byte b'?' url) [ none ↦ url | some (before, after) ↦ before ]

-- A path variable that is bound to nothing.
abbrev pub unbound : Text → Text → Unit {0} → Unit {0}
unbound name value s = s

unfoldable pub match_recorded_kind : UrlKind → CompiledStub → Text → Bool
unfolding recorded_path match_path
match_recorded_kind UrlKind.any cs url = true
match_recorded_kind UrlKind.exact_full cs url = text_eq cs.url_literal url
match_recorded_kind UrlKind.exact_path cs url = text_eq cs.url_literal (recorded_path url)
match_recorded_kind UrlKind.pattern_full cs url = cs.url_regex.match_string url
match_recorded_kind UrlKind.pattern_path cs url = cs.url_regex.match_string (recorded_path url)
match_recorded_kind UrlKind.template cs url =
    (match_path unbound cs.path_template (recorded_path url) tt).0
match_recorded_kind UrlKind.other cs url = false

-- `matchRecordedURL`
abbrev pub match_recorded_url : CompiledStub → Text → Bool
match_recorded_url cs = match_recorded_kind cs.url_kind cs

-- The strings among the elements of an array.
unfoldable pub strings_of : Elements → List Text
strings_of nil = []
strings_of (cons (string s) es) = s ∷ strings_of es
strings_of (cons v es) = strings_of es

abbrev pub absent_key : Subject
absent_key = key_values false [] false

unfoldable pub recorded_subject : Json → Subject
unfolding strings_of
recorded_subject (string s) = key_values true (s ∷ []) false
recorded_subject (array es) = key_values true (strings_of es) false
recorded_subject _ = absent_key

unfoldable pub find_fold : Text → Map Json → Option Json
unfolding equal_fold
find_fold name [] = none
find_fold name ((key, v) ∷ m) = if equal_fold key name then some v else find_fold name m

abbrev pub subject_or : Subject → Option Json → Subject
subject_or absent none = absent
subject_or absent (some v) = recorded_subject v

-- `recordedValues`
unfoldable pub recorded_values : Map Json → Text → Subject
unfolding find_fold recorded_subject
recorded_values source name =
    subject_or (subject_or absent_key (find_fold name source)) (lookup name source)

abbrev pub array_strings : Option Json → List Text
array_strings (some (array es)) = strings_of es
array_strings _ = []

unfoldable pub query_subject_of : Json → Subject
unfolding strings_of find
query_subject_of (object ms) = key_values true (array_strings (find (codes "values") ms)) false
query_subject_of _ = absent_key

abbrev pub query_subject_or : Option Json → Subject
query_subject_or none = absent_key
query_subject_or (some v) = query_subject_of v

-- `recordedQuery`
unfoldable pub recorded_query : Map Json → Text → Subject
unfolding query_subject_of
recorded_query source name = query_subject_or (lookup name source)

-- `criteria.matches`
unfoldable pub matches : CompiledStub → EventRequest → Bool
unfolding matches_method match_recorded_kind recorded_values recorded_query all_keys all_bodies
matches cs e =
    matches_method cs e.method
    && (match_recorded_url cs e.url
        && (all_keys cs.headers (recorded_values e.headers)
            && (all_keys cs.cookies (recorded_values e.cookies)
                && (all_keys cs.query (recorded_query e.query)
                    && all_bodies cs.body_matchers (body e.body [])))))

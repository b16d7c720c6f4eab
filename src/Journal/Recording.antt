-- ===== src/Journal/Recording.antt =====
-- internal/journal/journal.go: the `request` document that `NewEntry` records, `headerMap`,
-- `cookieMap` and `queryMap`. The fields that no criterion reads are left out.
use mockulus.Prelude.{ℕ, List, [], ◌∷◌, Text, codes}
use mockulus.Prelude.Map.{Map, insert}
use mockulus.Matchers.Json.{Json, Elements, string, array, object, nil, cons, end, member}
use mockulus.Journal.Defs.{cap_body}

-- A request as net/http hands it over: its headers by their canonical names, the cookies and the
-- query that it parses, as `URL.Query` does, and its request URI.
pub record Served : Type 0 where
  pub method : Text
  pub request_uri : Text
  pub headers : Map (List Text)
  pub cookies : List (Text × Text)
  pub query : Map (List Text)

-- internal/admin/requests.go: `eventRequest`, which reads the document back.
pub record EventRequest : Type 0 where
  pub method : Text
  pub url : Text
  pub headers : Map Json
  pub cookies : Map Json
  pub query : Map Json
  pub body : Text

unfoldable pub string_elements : List Text → Elements
string_elements [] = nil
string_elements (v ∷ vs) = cons (string v) (string_elements vs)

unfoldable pub header_value : List Text → Json
unfolding string_elements
header_value [] = array nil
header_value (v ∷ []) = string v
header_value (v ∷ w ∷ vs) = array (string_elements (v ∷ w ∷ vs))

unfoldable pub header_map : Map (List Text) → Map Json
unfolding header_value
header_map [] = []
header_map ((name, vs) ∷ h) = (name, header_value vs) ∷ header_map h

-- The loop of `cookieMap`: the last cookie of a name is kept.
unfoldable pub cookie_map : Map Json → List (Text × Text) → Map Json
unfolding insert
cookie_map out [] = out
cookie_map out ((name, v) ∷ cs) = cookie_map (insert name (string v) out) cs

abbrev pub query_value : Text → List Text → Json
query_value name vs =
    object (
      member (codes "key") (string name) (member (codes "values") (array (string_elements vs)) end))

unfoldable pub query_map : Map (List Text) → Map Json
query_map [] = []
query_map ((name, vs) ∷ q) = (name, query_value name vs) ∷ query_map q

-- What `NewEntry` gives to the JSON encoder, with the cap on the body.
unfoldable pub recorded_request : ℕ → Served → Text → EventRequest
unfolding header_map cookie_map query_map cap_body
recorded_request limit s body = record {
  method = s.method;
  url = s.request_uri;
  headers = header_map s.headers;
  cookies = cookie_map [] s.cookies;
  query = query_map s.query;
  body = (cap_body body limit).0;
}

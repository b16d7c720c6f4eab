-- ===== src/Admin/Criteria/Parts.antt =====
-- internal/admin/criteria.go: what the criteria read of a recorded request, against what the engine
-- reads of the request.
use mockulus.Prelude.{
  ℕ, ◌≤◌, ◌≡◌, ◌↔◌, refl, sym, ap, ap₂, ◌∙◌, Bool, true, false, ◌&&◌, none, some, List, [], ◌∷◌,
  Text, arith, All, text_eq, length,
}
use mockulus.Prelude.Map.{Map, lookup, insert}
use mockulus.Stub.{Subject, Matcher, KeyCriterion, CompiledStub, key_values, body}
use mockulus.Match.Request.{
  ParsedRequest, path_of, header_subject, query_subject, cookie_subject, body_subject, key_subject,
}
use mockulus.Match.FullMatch.{
  bind, all_keys, all_bodies, basic_auth_ok, criteria, match_url, clear_for,
}
use mockulus.Match.Select.Keeps.{match_url-keeps, clear_for-keeps}
use mockulus.Matchers.Json.{string}
use mockulus.Journal.{
  Served, EventRequest, header_map, query_map, cookie_map, recorded_request, cap_body,
}
use mockulus.Admin.Criteria.Defs.{equal_fold, recorded_values, recorded_query, recorded_subject}
use mockulus.Admin.Criteria.Headers.{
  IsToken, IsCanonical, recorded_values-key_subject, recorded_query-key_subject,
}

-- A stub with none of the criteria that `criteria.matches` does not evaluate.
pub record IsCovered (cs : CompiledStub) : Type 0 where
  pub host : cs.host ≡ none
  pub port : cs.port ≡ none
  pub scheme : cs.scheme ≡ none
  pub form : cs.form ≡ []
  pub path_params : cs.path_params ≡ []
  pub basic_auth : cs.basic_auth ≡ []

-- A cookie that both parsers gave one value, and a matcher to which the absence of another kind of
-- key makes no difference where the key is there.
pub record IsSent (s : Served) (r : ParsedRequest) (c : KeyCriterion) : Type 0 where
  pub value : Text
  pub parsed : r.cookies c.name ≡ some (value ∷ [])
  pub kept : lookup c.name (cookie_map [] s.cookies) ≡ some (string value)
  pub indifferent :
      c.matcher.matches (key_values true (value ∷ []) true)
      ≡ c.matcher.matches (key_values true (value ∷ []) false)

-- The engine's request has the method, the target and the headers that net/http parsed.
pub record IsParsed (canonical : Text → Text) (s : Served) (r : ParsedRequest) : Type 0 where
  pub method : r.method ≡ s.method
  pub full_url : r.full_url ≡ s.request_uri
  pub path : r.path ≡ path_of s.request_uri
  pub header : (name : Text) → r.header name ≡ lookup (canonical name) s.headers

-- The parts that the evaluation of a URL leaves alone.
pub record SameParts (r r' : ParsedRequest) : Type 0 where
  pub header : r'.header ≡ r.header
  pub query : r'.query ≡ r.query
  pub cookies : r'.cookies ≡ r.cookies
  pub raw_body : r'.raw_body ≡ r.raw_body
  pub content_type : r'.content_type ≡ r.content_type

SameParts-vars :
    (r r' : ParsedRequest) (vars : Map Text)
    → SameParts r r'
    → SameParts r (record r' { path_vars = vars })
SameParts-vars r r' vars h = record {
  header = h.header;
  query = h.query;
  cookies = h.cookies;
  raw_body = h.raw_body;
  content_type = h.content_type;
}

SameParts-refl : (r : ParsedRequest) → SameParts r r
SameParts-refl r = record {
  header = refl;
  query = refl;
  cookies = refl;
  raw_body = refl;
  content_type = refl;
}

pub SameParts-url :
    (cs : CompiledStub) (r : ParsedRequest) → SameParts r (match_url cs (clear_for cs.url_kind r)).1
unfolding bind
SameParts-url cs r =
    let bound = λ (name value : Text) (r' : ParsedRequest) (h : SameParts r r').
      SameParts-vars r r' (insert name value r'.path_vars) h in
    let cleared = λ (r' : ParsedRequest) (h : SameParts r r'). SameParts-vars r r' [] h in
    match_url-keeps (SameParts r) bound cleared cs.url_kind cs (clear_for cs.url_kind r)
      (clear_for-keeps (SameParts r) bound cleared cs.url_kind r (SameParts-refl r))

all_keys-agree :
    (cs : List KeyCriterion) (f g : Text → Subject)
    → All (λ c. c.matcher.matches (f c.name) ≡ c.matcher.matches (g c.name)) cs
    → all_keys cs f ≡ all_keys cs g
unfolding all_keys
all_keys-agree [] f g h = refl
all_keys-agree (c ∷ cs) f g h = ap₂ (λ a b. a && b) h.0 (all_keys-agree cs f g h.1)

&&-assoc_lists :
    (a b c d : Bool) → (a && (b && (c && (true && (true && (true && d)))))) ≡ (a && (c && (b && d)))
&&-assoc_lists a b c d = ground arith

-- What `criteria.matches` says beyond the method and the URL.
abbrev pub beyond : CompiledStub → EventRequest → Bool
beyond cs e =
    all_keys cs.headers (recorded_values e.headers)
    && (all_keys cs.cookies (recorded_values e.cookies)
        && (all_keys cs.query (recorded_query e.query)
            && all_bodies cs.body_matchers (body e.body [])))

pub no_keys : (l : List KeyCriterion) (f : Text → Subject) → l ≡ [] → all_keys l f ≡ true
unfolding all_keys
no_keys l f e = rw e refl

pub criteria-covered :
    (cs : CompiledStub) (r : ParsedRequest)
    → IsCovered cs
    → criteria cs r ≡ (
        all_keys cs.headers (header_subject r)
        && (all_keys cs.query (query_subject r)
            && (all_keys cs.cookies (cookie_subject r)
                && (true && (true && (true && all_bodies cs.body_matchers (body_subject r)))))))
unfolding criteria basic_auth_ok all_keys text_eq
criteria-covered cs r h = rw (h.host, h.port, h.scheme, h.basic_auth, h.path_params, h.form) refl

cap-whole : (b : Text) (limit : ℕ) → length b ≤ limit → (cap_body b limit).0 ≡ b
unfolding cap_body
cap-whole b limit h = ground arith

header_subject-kept :
    (canonical : Text → Text)
    (folds : (a b : Text)
      → IsToken a
      → IsToken b
      → (canonical a ≡ canonical b) ↔ (equal_fold a b ≡ true))
    (s : Served) (r r' : ParsedRequest) (name : Text)
    → IsParsed canonical s r
    → IsCanonical canonical folds s.headers
    → SameParts r r'
    → IsToken name
    → header_subject r' name ≡ recorded_values (header_map s.headers) name
unfolding header_subject
header_subject-kept canonical folds s r r' name p c k t =
    ap key_subject (ap (λ f. f name) k.header ∙ p.header name)
    ∙ sym (recorded_values-key_subject canonical folds name s.headers t c)

query_subject-kept :
    (s : Served) (r r' : ParsedRequest) (name : Text)
    → r.query name ≡ lookup name s.query
    → SameParts r r'
    → query_subject r' name ≡ recorded_query (query_map s.query) name
unfolding query_subject
query_subject-kept s r r' name p k =
    ap key_subject (ap (λ f. f name) k.query ∙ p) ∙ sym (recorded_query-key_subject name s.query)

cookie-answers :
    (s : Served) (r r' : ParsedRequest) (c : KeyCriterion)
    → SameParts r r'
    → IsSent s r c
    → c.matcher.matches (cookie_subject r' c.name)
      ≡ c.matcher.matches (recorded_values (cookie_map [] s.cookies) c.name)
unfolding cookie_subject recorded_values recorded_subject
cookie-answers s r r' c k sent = rw (k.cookies, sent.parsed, sent.kept) sent.indifferent

all_bodies-kept :
    (r r' : ParsedRequest) (ms : List Matcher)
    → SameParts r r'
    → All (λ m. m.matches (body r.raw_body r.content_type) ≡ m.matches (body r.raw_body [])) ms
    → all_bodies ms (body_subject r') ≡ all_bodies ms (body r.raw_body [])
unfolding all_bodies body_subject
all_bodies-kept r r' [] k h = refl
all_bodies-kept r r' (m ∷ ms) k h =
    ap₂ (λ a b. a && b) (ap₂ (λ b t. m.matches (body b t)) k.raw_body k.content_type ∙ h.0)
      (all_bodies-kept r r' ms k h.1)

All-map :
    {P Q : KeyCriterion → Type 0} (l : List KeyCriterion)
    → ((c : KeyCriterion) → P c → Q c)
    → All P l
    → All Q l
All-map [] f h = tt
All-map (c ∷ l) f h = (f c h.0, All-map l f h.1)

pub criteria-beyond :
    (canonical : Text → Text)
    (folds : (a b : Text)
      → IsToken a
      → IsToken b
      → (canonical a ≡ canonical b) ↔ (equal_fold a b ≡ true))
    (cs : CompiledStub) (s : Served) (r r' : ParsedRequest) (limit : ℕ)
    → IsCovered cs
    → IsParsed canonical s r
    → IsCanonical canonical folds s.headers
    → All (λ c. IsToken c.name) cs.headers
    → All (λ c. r.query c.name ≡ lookup c.name s.query) cs.query
    → All (IsSent s r) cs.cookies
    → All
        (λ m. m.matches (body r.raw_body r.content_type) ≡ m.matches (body r.raw_body []))
        cs.body_matchers
    → length r.raw_body ≤ limit
    → SameParts r r'
    → criteria cs r' ≡ beyond cs (recorded_request limit s r.raw_body)
unfolding recorded_request
criteria-beyond canonical folds cs s r r' limit covered p c tokens asked sent plain fits k =
    criteria-covered cs r' covered
    ∙ rw
        (
          all_keys-agree cs.headers (header_subject r') (recorded_values (header_map s.headers)) (
              All-map cs.headers
                (λ crit t.
                  ap crit.matcher.matches
                    (header_subject-kept canonical folds s r r' crit.name p c k t))
                tokens),
          all_keys-agree cs.query (query_subject r') (recorded_query (query_map s.query)) (
              All-map cs.query
                (λ crit q. ap crit.matcher.matches (query_subject-kept s r r' crit.name q k))
                asked),
          all_keys-agree cs.cookies (cookie_subject r') (recorded_values (cookie_map [] s.cookies))
              (All-map cs.cookies (λ crit. cookie-answers s r r' crit k) sent),
          all_bodies-kept r r' cs.body_matchers k plain,
          cap-whole r.raw_body limit fits,
        )
        (&&-assoc_lists (all_keys cs.headers (recorded_values (header_map s.headers)))
          (all_keys cs.query (recorded_query (query_map s.query)))
          (all_keys cs.cookies (recorded_values (cookie_map [] s.cookies)))
          (all_bodies cs.body_matchers (body r.raw_body [])))

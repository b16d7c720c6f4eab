-- ===== src/Match/FullMatch.antt =====
-- internal/match/snapshot.go: `fullMatch`, `matchURL` and `matchesBasicAuth`.
use mockulus.Prelude.{
  ℕ, ◌+◌, Bool, true, false, ◌&&◌, ◌||◌, Option, none, some, List, [], ◌∷◌, map, Text, codes,
  text_eq, has_prefix, take, drop, length, if◌then◌else◌, ◌==◌, leb,
}
use mockulus.Stub.{
  Subject, Matcher, KeyCriterion, UrlKind, CompiledStub, basic_auth_prefix, matches_method,
  has_criteria_beyond_url,
}
use mockulus.Stub.PathTemplate.{match_path}
use mockulus.Match.Request.{
  ParsedRequest, host_subject, port_subject, scheme_subject, header_subject, query_subject,
  cookie_subject, form_subject, path_var_subject, body_subject, bind_path_var, clear_path_vars,
}

lower : ℕ → ℕ
lower c = if leb b'A' c && leb c b'Z' then c + 32 else c

-- `strings.EqualFold` against an ASCII text in which no letter has a fold outside ASCII that would
-- keep the number of bytes.
unfoldable pub equal_fold : Text → Text → Bool
unfolding lower
equal_fold a b = text_eq (map lower a) (map lower b)

-- A stub's credentials begin with the prefix, which the compiler puts there.
unfoldable pub matches_basic_auth : List Text → Text → Bool
unfolding equal_fold
matches_basic_auth [] want = false
matches_basic_auth (got ∷ rest) want =
    let n = length basic_auth_prefix in
    ((length got == length want)
      && (equal_fold (take n got) (take n want) && text_eq (drop n got) (drop n want)))
    || matches_basic_auth rest want

-- A nil criterion holds of everything.
abbrev optional : Option Matcher → Subject → Bool
optional none s = true
optional (some m) s = m.matches s

unfoldable pub all_keys : List KeyCriterion → (Text → Subject) → Bool
all_keys [] subject = true
all_keys (c ∷ cs) subject = c.matcher.matches (subject c.name) && all_keys cs subject

unfoldable pub all_bodies : List Matcher → Subject → Bool
all_bodies [] s = true
all_bodies (m ∷ ms) s = m.matches s && all_bodies ms s

values_of : Option (List Text) → List Text
values_of none = []
values_of (some vs) = vs

-- `cs.BasicAuth != "" && !matchesBasicAuth(...)` refuses.
unfoldable pub basic_auth_ok : CompiledStub → ParsedRequest → Bool
unfolding matches_basic_auth values_of
basic_auth_ok cs r =
    text_eq cs.basic_auth []
    || matches_basic_auth (values_of (r.header (codes "Authorization"))) cs.basic_auth

-- The criteria behind method and URL, in the order in which they are evaluated.
unfoldable pub criteria : CompiledStub → ParsedRequest → Bool
unfolding basic_auth_ok all_keys all_bodies
criteria cs r =
    optional cs.host (host_subject r)
    && (optional cs.port (port_subject r)
        && (optional cs.scheme (scheme_subject r)
            && (all_keys cs.headers (header_subject r)
                && (all_keys cs.query (query_subject r)
                    && (all_keys cs.cookies (cookie_subject r)
                        && (basic_auth_ok cs r
                            && (all_keys cs.path_params (path_var_subject r)
                                && (all_keys cs.form (form_subject r)
                                    && all_bodies cs.body_matchers (body_subject r)))))))))

unfoldable pub bind : Text → Text → ParsedRequest → ParsedRequest
bind name value r = bind_path_var r name value

-- Only a template changes the request: it binds the path's variables.
unfoldable pub match_url_kind : UrlKind → CompiledStub → ParsedRequest → Bool × ParsedRequest
unfolding bind
match_url_kind UrlKind.any cs r = (true, r)
match_url_kind UrlKind.exact_full cs r = (text_eq cs.url_literal r.full_url, r)
match_url_kind UrlKind.exact_path cs r = (text_eq cs.url_literal r.path, r)
match_url_kind UrlKind.pattern_full cs r =
    (has_prefix r.full_url cs.literal_prefix && cs.url_regex.match_string r.full_url, r)
match_url_kind UrlKind.pattern_path cs r =
    (has_prefix r.path cs.literal_prefix && cs.url_regex.match_string r.path, r)
match_url_kind UrlKind.template cs r =
    if has_prefix r.path cs.literal_prefix
    then match_path bind cs.path_template r.path r
    else (false, r)
match_url_kind UrlKind.other cs r = (false, r)

abbrev pub match_url : CompiledStub → ParsedRequest → Bool × ParsedRequest
match_url cs = match_url_kind cs.url_kind cs

abbrev pub clear_for : UrlKind → ParsedRequest → ParsedRequest
clear_for UrlKind.template r = clear_path_vars r
clear_for _ r = r

abbrev pub judge : CompiledStub → Bool × ParsedRequest → Bool × ParsedRequest
judge cs (false, r) = (false, r)
judge cs (true, r) = (if has_criteria_beyond_url cs then criteria cs r else true, r)

unfoldable pub full_match : CompiledStub → ParsedRequest → Bool × ParsedRequest
full_match cs r =
    if matches_method cs r.method
    then judge cs (match_url cs (clear_for cs.url_kind r))
    else (false, r)

-- ===== src/Admin/Criteria/Agrees.antt =====
-- internal/admin/criteria.go: what a request pattern says of a recorded request, against what the
-- engine said of the request when it came.
use mockulus.Prelude.{
  ℕ, ◌≤◌, ◌≡◌, ◌↔◌, inl, inr, refl, sym, ap, ◌∙◌, Bool, true, false, ◌&&◌, Option, none, some, List,
  [], ◌∷◌, Text, arith, All, Bool-cases, length,
}
use mockulus.Prelude.Utf8.{valid_string}
use mockulus.Prelude.Map.{lookup}
use mockulus.Stub.{CompiledStub, matches_method, has_criteria_beyond_url, non_empty, body}
use mockulus.Match.Request.{ParsedRequest}
use mockulus.Match.FullMatch.{
  all_keys, all_bodies, criteria, match_url, clear_for, judge, full_match,
}
use mockulus.Journal.{Served, EventRequest, recorded_request}
use mockulus.Admin.Criteria.Defs.{equal_fold, match_recorded_url, matches}
use mockulus.Admin.Criteria.Headers.{IsToken, IsCanonical}
use mockulus.Admin.Criteria.Target.{HasPrefix, match_url-recorded}
use mockulus.Admin.Criteria.Parts.{
  IsCovered, IsSent, IsParsed, SameParts-url, beyond, criteria-covered, criteria-beyond,
}

empty {ℓ} : {A : Type ℓ} (l : List A) → non_empty l ≡ false → l ≡ []
empty [] h = refl
empty (x ∷ l) h = absurd (ground arith)

-- Where nothing is asked beyond the URL, everything satisfies it.
criteria-none :
    (cs : CompiledStub) (r : ParsedRequest)
    → IsCovered cs
    → has_criteria_beyond_url cs ≡ false
    → criteria cs r ≡ true
unfolding has_criteria_beyond_url all_keys all_bodies
criteria-none cs r covered h =
    criteria-covered cs r covered
    ∙ rw
        (
          empty cs.headers (ground (arith, h)),
          empty cs.query (ground (arith, h)),
          empty cs.cookies (ground (arith, h)),
          empty cs.body_matchers (ground (arith, h)),
        )
        refl

judge-answers :
    (cs : CompiledStub) (v : Bool × ParsedRequest) (k : Bool)
    → IsCovered cs
    → criteria cs v.1 ≡ k
    → (judge cs v).0 ≡ (v.0 && k)
judge-answers cs (false, r) k covered e = refl
judge-answers cs (true, r) k covered e = elim (Bool-cases (has_criteria_beyond_url cs)) [
  | inl h ↦ rw h e
  | inr h ↦ rw h (sym (criteria-none cs r covered h) ∙ e)
]

full_match-judged :
    (cs : CompiledStub) (r : ParsedRequest) (u k : Bool)
    → (judge cs (match_url cs (clear_for cs.url_kind r))).0 ≡ (u && k)
    → (full_match cs r).0 ≡ (matches_method cs r.method && (u && k))
unfolding full_match
full_match-judged cs r u k h = elim (Bool-cases (matches_method cs r.method)) [
  | inl e ↦ rw e h
  | inr e ↦ rw e refl
]

-- Texts that JSON keeps: the parts of a request that are recorded are all valid UTF-8.
pub record IsUtf8 (s : Served) (raw : Text) : Type 0 where
  pub method : valid_string s.method ≡ true
  pub request_uri : valid_string s.request_uri ≡ true
  pub raw_body : valid_string raw ≡ true
  pub headers :
      All (λ h. (valid_string h.0 ≡ true) × All (λ v. valid_string v ≡ true) h.1) s.headers
  pub cookies : All (λ c. (valid_string c.0 ≡ true) × (valid_string c.1 ≡ true)) s.cookies
  pub query : All (λ q. (valid_string q.0 ≡ true) × All (λ v. valid_string v ≡ true) q.1) s.query

-- What a pattern says of a document that is read back, where it can be.
abbrev pub read_back : CompiledStub → Option EventRequest → Option Bool
read_back cs none = none
read_back cs (some e) = some (matches cs e)

module _ (canonical : Text → Text)
    (folds : (a b : Text)
      → IsToken a
      → IsToken b
      → (canonical a ≡ canonical b) ↔ (equal_fold a b ≡ true)) where
  matches-recorded :
      (cs : CompiledStub) (s : Served) (r : ParsedRequest) (limit : ℕ)
      → IsCovered cs
      → HasPrefix cs
      → IsParsed canonical s r
      → IsCanonical canonical folds s.headers
      → All (λ c. IsToken c.name) cs.headers
      → All (λ c. r.query c.name ≡ lookup c.name s.query) cs.query
      → All (IsSent s r) cs.cookies
      → All
          (λ m. m.matches (body r.raw_body r.content_type) ≡ m.matches (body r.raw_body []))
          cs.body_matchers
      → length r.raw_body ≤ limit
      → matches cs (recorded_request limit s r.raw_body) ≡ (full_match cs r).0
  unfolding matches recorded_request
  matches-recorded cs s r limit covered prefix p c tokens asked sent plain fits =
      let e = recorded_request limit s r.raw_body in
      let v = match_url cs (clear_for cs.url_kind r) in
      let k = beyond cs e in
      let judged = judge-answers cs v k covered (
        criteria-beyond canonical folds cs s r v.1 limit covered p c tokens asked sent plain fits
          (SameParts-url cs r)) in
      let url = match_url-recorded cs r s.request_uri prefix p.full_url p.path in
      sym (
        full_match-judged cs r (match_recorded_url cs s.request_uri) k
          (judged ∙ ap (λ b. b && k) url)
        ∙ ap (λ m. matches_method cs m && (match_recorded_url cs s.request_uri && k)) p.method)

  -- A request that is recorded as JSON and read back satisfies a pattern exactly where the stub of that
  -- pattern matches the request itself, provided that:
  -- the stub has no criteria on host, port, scheme, form, path parameters or basic credentials, and its
  -- literal prefix is one of all that its expression or template matches;
  -- JSON gives back what was recorded of valid UTF-8, and the request, its body included, is such;
  -- the names of headers are letters, digits, dashes and underscores, and two have one canonical
  -- spelling where they fold to one another;
  -- the engine read the method, the headers and the target, one without a question mark that ends it, as
  -- net/http did, and gives each query parameter that the stub names the values that net/url gives
  -- it, which drops elements with a semicolon or a bad escape where the engine keeps them;
  -- each cookie that the stub names was sent, the engine and net/http read the same one value of it,
  -- and its matcher does not ask, of a key that is there, whether its absence would be strict;
  -- the body is no longer than the cap, and the stub's matchers read it the same without its
  -- Content-Type.
  pub matches-full_match :
      (reread : EventRequest → Option EventRequest) (cs : CompiledStub) (s : Served)
      (r : ParsedRequest) (limit : ℕ)
      → ((s : Served) (raw : Text)
          → IsUtf8 s raw
          → length raw ≤ limit
          → reread (recorded_request limit s raw) ≡ some (recorded_request limit s raw))
      → IsUtf8 s r.raw_body
      → IsCovered cs
      → HasPrefix cs
      → IsParsed canonical s r
      → IsCanonical canonical folds s.headers
      → All (λ c. IsToken c.name) cs.headers
      → All (λ c. r.query c.name ≡ lookup c.name s.query) cs.query
      → All (IsSent s r) cs.cookies
      → All
          (λ m. m.matches (body r.raw_body r.content_type) ≡ m.matches (body r.raw_body []))
          cs.body_matchers
      → length r.raw_body ≤ limit
      → read_back cs (reread (recorded_request limit s r.raw_body)) ≡ some (full_match cs r).0
  matches-full_match reread cs s r limit kept utf8 covered prefix p c tokens asked sent plain fits =
      ap (read_back cs) (kept s r.raw_body utf8 fits)
      ∙ ap some (matches-recorded cs s r limit covered prefix p c tokens asked sent plain fits)

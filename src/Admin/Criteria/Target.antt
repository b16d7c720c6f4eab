-- ===== src/Admin/Criteria/Target.antt =====
-- internal/admin/criteria.go: `matchRecordedURL` against `matchURL` of internal/match/snapshot.go.
use mockulus.Prelude.{
  ◌≡◌, ◌≢◌, ◌⊎◌, inl, inr, refl, sym, ap, ◌∙◌, Bool, true, false, ◌&&◌, [], Text, arith, Bool-cases,
  text_eq, has_prefix,
}
use mockulus.Stub.{UrlKind, CompiledStub}
use mockulus.Stub.PathTemplate.{match_path, compute_template_prefix}
use mockulus.Stub.PathTemplate.Fits.{match_path-path_fits}
use mockulus.Stub.PathTemplate.Prefix.{match_path-has_prefix}
use mockulus.Match.Request.{ParsedRequest, path_of, clear_path_vars}
use mockulus.Match.FullMatch.{bind, match_url_kind, match_url, clear_for}
use mockulus.Admin.Criteria.Defs.{recorded_path, unbound, match_recorded_kind, match_recorded_url}

-- What the compiler promises of a literal prefix.
pub record HasPrefix (cs : CompiledStub) : Type 0 where
  pub regex :
      (t : Text) → cs.url_regex.match_string t ≡ true → has_prefix t cs.literal_prefix ≡ true
  pub segments : cs.url_kind ≡ UrlKind.template → cs.path_template.segments ≢ []
  pub template :
      cs.url_kind ≡ UrlKind.template
      → (cs.literal_prefix ≡ cs.path_template.literal_prefix)
        × (cs.path_template.literal_prefix ≡ compute_template_prefix cs.path_template.segments)

-- A pattern is tried only behind its literal prefix, which it needs to match.
guarded : (p m : Bool) → (m ≡ true → p ≡ true) → (p && m) ≡ m
guarded p m h = elim (Bool-cases m) [ inl e ↦ ground (arith, e, h e) | inr e ↦ ground (arith, e) ]

path_of-recorded : (url : Text) → recorded_path url ≡ path_of url
unfolding recorded_path path_of
path_of-recorded url = refl

template_answers :
    (cs : CompiledStub) (r : ParsedRequest) (path : Text)
    → cs.path_template.segments ≢ []
    → (cs.literal_prefix ≡ cs.path_template.literal_prefix)
      × (cs.path_template.literal_prefix ≡ compute_template_prefix cs.path_template.segments)
    → r.path ≡ path
    → (match_url_kind UrlKind.template cs r).0 ≡ (match_path unbound cs.path_template path tt).0
unfolding match_url_kind
template_answers cs r path ne pre e = elim (Bool-cases (has_prefix r.path cs.literal_prefix)) [
  | inl h ↦ rw h (
      match_path-path_fits bind cs.path_template r.path r ne
      ∙ sym (match_path-path_fits unbound cs.path_template r.path tt ne)
      ∙ ap (λ p. (match_path unbound cs.path_template p tt).0) e)
  | inr h ↦ rw h (sym (unmatched (Bool-cases (match_path unbound cs.path_template path tt).0) h))
]
  where
    clash : {p : Bool} → p ≡ true → p ≡ false → ⊥
    clash h k = ground arith

    unmatched :
        (((match_path unbound cs.path_template path tt).0 ≡ true)
          ⊎ ((match_path unbound cs.path_template path tt).0 ≡ false))
        → has_prefix r.path cs.literal_prefix ≡ false
        → (match_path unbound cs.path_template path tt).0 ≡ false
    unmatched (inr m) h = m
    unmatched (inl m) h =
        let starts = match_path-has_prefix unbound cs.path_template path tt ne pre.1 m in
        absurd (clash (rw (e, pre.0) starts) h)

kind_answers :
    (kind : UrlKind) (cs : CompiledStub) (r : ParsedRequest) (url : Text)
    → cs.url_kind ≡ kind
    → HasPrefix cs
    → r.full_url ≡ url
    → r.path ≡ path_of url
    → (match_url_kind kind cs (clear_for kind r)).0 ≡ match_recorded_kind kind cs url
unfolding match_url_kind match_recorded_kind
kind_answers UrlKind.any cs r url k p f e = refl
kind_answers UrlKind.exact_full cs r url k p f e = ap (text_eq cs.url_literal) f
kind_answers UrlKind.exact_path cs r url k p f e =
    ap (text_eq cs.url_literal) (e ∙ sym (path_of-recorded url))
kind_answers UrlKind.pattern_full cs r url k p f e =
    guarded (has_prefix r.full_url cs.literal_prefix) (cs.url_regex.match_string r.full_url)
      (p.regex r.full_url)
    ∙ ap cs.url_regex.match_string f
kind_answers UrlKind.pattern_path cs r url k p f e =
    guarded (has_prefix r.path cs.literal_prefix) (cs.url_regex.match_string r.path)
      (p.regex r.path)
    ∙ ap cs.url_regex.match_string (e ∙ sym (path_of-recorded url))
kind_answers UrlKind.template cs r url k p f e =
    template_answers cs (clear_path_vars r) (recorded_path url) (p.segments k) (p.template k)
      (e ∙ sym (path_of-recorded url))
kind_answers UrlKind.other cs r url k p f e = refl

-- A recorded URL satisfies the condition on it where the request's did.
pub match_url-recorded :
    (cs : CompiledStub) (r : ParsedRequest) (url : Text)
    → HasPrefix cs
    → r.full_url ≡ url
    → r.path ≡ path_of url
    → (match_url cs (clear_for cs.url_kind r)).0 ≡ match_recorded_url cs url
match_url-recorded cs r url = kind_answers cs.url_kind cs r url refl

-- ===== src/Match/Select/Keeps.antt =====
-- internal/match/snapshot.go: what every step of `fullMatch` on a request keeps, `fullMatch` keeps.
use mockulus.Prelude.{Bool, true, false, Text, inl, inr, Bool-cases, has_prefix}
use mockulus.Stub.{UrlKind, CompiledStub, matches_method}
use mockulus.Stub.PathTemplate.Keeps.{match_path-keeps}
use mockulus.Match.Request.{ParsedRequest, clear_path_vars}
use mockulus.Match.FullMatch.{bind, match_url_kind, match_url, clear_for, judge, full_match}

module _ (P : ParsedRequest → Type 0)
    (bound : (name value : Text) (r : ParsedRequest) → P r → P (bind name value r))
    (cleared : (r : ParsedRequest) → P r → P (clear_path_vars r)) where
  pub clear_for-keeps : (kind : UrlKind) (r : ParsedRequest) → P r → P (clear_for kind r)
  clear_for-keeps UrlKind.template r h = cleared r h
  clear_for-keeps _ r h = h

  pub match_url-keeps :
      (kind : UrlKind) (cs : CompiledStub) (r : ParsedRequest)
      → P r
      → P (match_url_kind kind cs r).1
  unfolding match_url_kind
  match_url-keeps UrlKind.template cs r h =
      elim (Bool-cases (has_prefix r.path cs.literal_prefix)) [
        | inl e ↦ rw e (match_path-keeps bind P bound cs.path_template r.path r h)
        | inr e ↦ rw e h
      ]
  match_url-keeps _ cs r h = h

  judge-keeps : (cs : CompiledStub) (v : Bool × ParsedRequest) → P v.1 → P (judge cs v).1
  judge-keeps cs (true, r) h = h
  judge-keeps cs (false, r) h = h

  pub full_match-keeps : (cs : CompiledStub) (r : ParsedRequest) → P r → P (full_match cs r).1
  unfolding full_match
  full_match-keeps cs r h = elim (Bool-cases (matches_method cs r.method)) [
    | inl e ↦ rw e (
        judge-keeps cs (match_url cs (clear_for cs.url_kind r))
          (match_url-keeps cs.url_kind cs _ (clear_for-keeps cs.url_kind r h)))
    | inr e ↦ rw e h
  ]

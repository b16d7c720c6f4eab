-- ===== src/Match/Select/Correct.antt =====
-- internal/match/snapshot.go: an indexed snapshot selects as the scan of all its stubs does.
use mathlib.Core.List.{append_cancel_right}
use mockulus.Prelude.{
  ℕ, ◌+◌, ◌≤◌, ◌^◌, ◌≡◌, ◌≢◌, ◌⊎◌, inl, inr, refl, sym, ap, ◌∙◌, Bool, true, false, ◌&&◌, ap₂,
  Option, none, some, List, [], ◌∷◌, ◌++◌, Text, text_eq, text_eq_iff, arith, length, All,
  Bool-cases,
}
use mockulus.Stub.{UrlKind, CompiledStub, matches_method}
use mockulus.Match.Request.{ParsedRequest}
use mockulus.Match.FullMatch.{full_match, judge, clear_for, match_url_kind}
use mockulus.Match.Snapshot.{
  Snapshot, Settings, any_method, method_sep, slice_at, key_method, index_key, build_snapshot,
}
use mockulus.Match.Snapshot.Index.{
  positions, has_full_key, has_path_key, is_full, is_path, is_unhashed, by_full_url-build,
  by_path-build, patterns-build, ordered-build,
}
use mockulus.Match.Select.Defs.{
  Gate, Outcome, unserved, unless_empty, candidate_lists, merge, match,
}
use mockulus.Match.Select.Target.{SameTarget, SameTarget-refl, IsSteady, try_stub-target}
use mockulus.Match.Select.Merge.{Selector, lists_at, taker, Exclusive}
use mockulus.Match.Select.Linear.{verdict, scan, Covers, merge-scan}

-- The indexes hold the positions of the stubs among the ordered ones, each stub in its place.
pub record IsIndexed (s : Snapshot) : Type 0 where
  pub full : (key : Text) → slice_at key s.by_full_url ≡ positions (has_full_key key) 0 s.ordered
  pub path : (key : Text) → slice_at key s.by_path ≡ positions (has_path_key key) 0 s.ordered
  pub rest : s.patterns ≡ positions (λ cs. is_unhashed cs.url_kind) 0 s.ordered

-- A built snapshot is indexed, whatever settings it is then given.
pub build-IsIndexed :
    (stubs : List CompiledStub) (epoch : ℕ) (settings : Option Settings)
    → IsIndexed (record (build_snapshot stubs epoch) { settings = settings })
build-IsIndexed stubs epoch settings = record {
  full = λ key.
      by_full_url-build stubs epoch key
      ∙ ap (positions (has_full_key key) 0) (sym (ordered-build stubs epoch));
  path = λ key.
      by_path-build stubs epoch key
      ∙ ap (positions (has_path_key key) 0) (sym (ordered-build stubs epoch));
  rest =
      patterns-build stubs epoch
      ∙ ap (positions (λ cs. is_unhashed cs.url_kind) 0) (sym (ordered-build stubs epoch));
}

abbrev selectors : ParsedRequest → List Selector
selectors r =
    has_full_key (index_key r.method r.full_url)
    ∷ has_full_key (index_key any_method r.full_url)
    ∷ has_path_key (index_key r.method r.path)
    ∷ has_path_key (index_key any_method r.path)
    ∷ (λ cs. is_unhashed cs.url_kind)
    ∷ []

lists-selectors :
    (s : Snapshot) (r : ParsedRequest)
    → IsIndexed s
    → candidate_lists s r ≡ lists_at (selectors r) 0 s.ordered
unfolding candidate_lists
lists-selectors s r h = cc (
  h.full (index_key r.method r.full_url),
  h.full (index_key any_method r.full_url),
  h.path (index_key r.method r.path),
  h.path (index_key any_method r.path),
  h.rest,
)

-- A key of the request's method is no key of ANY.
keys_apart :
    (r : ParsedRequest) (url key : Text)
    → r.method ≢ any_method
    → (text_eq key (index_key r.method url) ≡ false)
      ⊎ (text_eq key (index_key any_method url) ≡ false)
unfolding index_key
keys_apart r url key ne = elim (Bool-cases (text_eq key (index_key any_method url))) [
  | inr off ↦ inr off
  | inl on ↦ elim (Bool-cases (text_eq key (index_key r.method url))) [
    | inr off ↦ inl off
    | inl both ↦ absurd (
        ne (
          append_cancel_right r.method any_method (method_sep ++ url)
            (sym ((text_eq_iff _ _).0 both) ∙ (text_eq_iff _ _).0 on)))
  ]
]

selectors-Exclusive :
    (r : ParsedRequest) (cs : CompiledStub) → r.method ≢ any_method → Exclusive (selectors r) cs
unfolding taker
selectors-Exclusive r cs ne =
    let key : Text = index_key (key_method cs) cs.url_literal in
    ground (arith, keys_apart r r.full_url key ne, keys_apart r r.path key ne)

by_kind :
    (kind : UrlKind) (cs : CompiledStub) (r : ParsedRequest)
    → (is_full kind && text_eq cs.url_literal r.full_url) ≡ false
    → (is_path kind && text_eq cs.url_literal r.path) ≡ false
    → is_unhashed kind ≡ false
    → match_url_kind kind cs r ≡ (false, r)
unfolding match_url_kind
by_kind UrlKind.exact_full cs r h k l = rw h
by_kind UrlKind.exact_path cs r h k l = rw k
by_kind _ cs r h k l = cc

-- The key of a stub that accepts the method is ANY's or the method's.
key_method-cases :
    (cs : CompiledStub) (m : Text)
    → matches_method cs m ≡ true
    → (key_method cs ≡ any_method) ⊎ (key_method cs ≡ m)
unfolding matches_method key_method
key_method-cases cs m h = elim (Bool-cases (text_eq cs.method [])) [
  | inl e ↦ inl (rw e)
  | inr e ↦ inr (rw e ((text_eq_iff cs.method m).0 (ground arith)))
]

-- A stub that accepts the method, and is under neither of the URL's keys, has another URL.
miss :
    (flag : Bool) (cs : CompiledStub) (m url : Text)
    → matches_method cs m ≡ true
    → (flag && text_eq (index_key (key_method cs) cs.url_literal) (index_key m url)) ≡ false
    → (flag && text_eq (index_key (key_method cs) cs.url_literal) (index_key any_method url))
      ≡ false
    → (flag && text_eq cs.url_literal url) ≡ false
miss flag cs m url ok h k = elim (Bool-cases (text_eq cs.url_literal url)) [
  | inr off ↦ ground arith
  | inl on ↦
      let same : cs.url_literal ≡ url = (text_eq_iff _ _).0 on in
      elim (key_method-cases cs m ok) [
        | inl e ↦ ground (arith, (text_eq_iff _ _).1 (ap₂ index_key e same))
        | inr e ↦ ground (arith, (text_eq_iff _ _).1 (ap₂ index_key e same))
      ]
]

clear_for-eq :
    (kind : UrlKind) (r : ParsedRequest) → is_unhashed kind ≡ false → clear_for kind r ≡ r
clear_for-eq UrlKind.template r h = cc
clear_for-eq _ r h = refl

selectors-target : (r0 r : ParsedRequest) → SameTarget r0 r → selectors r0 ≡ selectors r
selectors-target r0 r h = cc

outside :
    (r : ParsedRequest) (cs : CompiledStub)
    → taker (selectors r) cs ≡ none
    → (has_full_key (index_key r.method r.full_url) cs ≡ false)
      × (has_full_key (index_key any_method r.full_url) cs ≡ false)
      × (has_path_key (index_key r.method r.path) cs ≡ false)
      × (has_path_key (index_key any_method r.path) cs ≡ false)
      × (is_unhashed cs.url_kind ≡ false)
unfolding taker
outside r cs h = ground arith

-- A stub in none of the candidate lists does not match, and evaluating it would change nothing.
full_match-outside :
    (r : ParsedRequest) (cs : CompiledStub)
    → taker (selectors r) cs ≡ none
    → full_match cs r ≡ (false, r)
unfolding full_match
full_match-outside r cs h = elim (Bool-cases (matches_method cs r.method)) [
  | inr off ↦ rw off
  | inl on ↦
      let (full_m, full_any, path_m, path_any, hashed) = outside r cs h in
      rw (on, clear_for-eq cs.url_kind r hashed)
        (ap (judge cs) (
          by_kind cs.url_kind cs r
            (miss (is_full cs.url_kind) cs r.method r.full_url on full_m full_any)
            (miss (is_path cs.url_kind) cs r.method r.path on path_m path_any) hashed))
]

module _ {W : Type 0} (gate : Option (Gate W)) (r0 : ParsedRequest) where
  covers :
      (cs : CompiledStub)
      → r0.method ≢ any_method
      → IsSteady gate
      → Covers gate (selectors r0) r0 cs
  covers cs ne steady = record {
    exclusive = selectors-Exclusive r0 cs ne;
    inert = λ out r same.
        full_match-outside r cs (ap (λ ps. taker ps cs) (sym (selectors-target r0 r same)) ∙ out);
    steady = λ r w same. try_stub-target gate r0 cs r w steady same;
  }

  All-Covers :
      (l : List CompiledStub)
      → r0.method ≢ any_method
      → IsSteady gate
      → All (Covers gate (selectors r0) r0) l
  All-Covers [] ne steady = tt
  All-Covers (cs ∷ l) ne steady = (covers cs ne steady, All-Covers l ne steady)

non_empty :
    {W : Type 0} (gate : Option (Gate W)) (l : List CompiledStub) (r : ParsedRequest) (w : W)
    (run : Option (Outcome W))
    → verdict run ≡ some (scan gate l r w)
    → verdict (unless_empty gate l (unserved r w 0) run) ≡ some (scan gate l r w)
non_empty gate [] r w run h = unfold scan in refl
non_empty gate (cs ∷ rest) r w run h = h

-- On an indexed snapshot of at most 2 ^ 31 stubs, for a request whose method is not the literal
-- ANY and a gate that leaves the request's target alone, `Match` ends without a panic, and serves
-- exactly the stub that a scan of all stubs in selection order serves, with the same bindings,
-- memo and effects on the world; where the scan finds none it finds none.
pub match-scan :
    {W : Type 0} (gate : Option (Gate W)) (s : Snapshot) (r : ParsedRequest) (w : W)
    → IsIndexed s
    → length s.ordered ≤ 2 ^ 31
    → r.method ≢ any_method
    → IsSteady gate
    → verdict (match gate s r w) ≡ some (scan gate s.ordered r w)
unfolding match
match-scan {W} gate s r w ix room ne steady = non_empty gate s.ordered r w _ (
    ap (λ l. verdict (merge gate (length s.ordered + 1) s.ordered l 0 r w)) (lists-selectors s r ix)
    ∙ merge-scan gate (selectors r) s.ordered r s.ordered [] 0 (length s.ordered + 1) 0 r w refl
        refl (omega arith) (omega arith) (All-Covers gate r s.ordered ne steady)
        (SameTarget-refl r))

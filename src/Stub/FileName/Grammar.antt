-- ===== src/Stub/FileName/Grammar.antt =====
-- internal/stub/filename.go: `RejectFileName` against a description of the names.
use mockulus.Prelude.{
  ◌≤◌, ◌≡◌, ◌≢◌, ◌⊎◌, ◌↔◌, inl, inr, refl, ap, ◌∙◌, true, false, ◌||◌, none, List, [], ◌∷◌, Text,
  codes, arith, All, ltb, ◌==◌, text_eq, text_eq_iff, text_eq_self, has_prefix, Bool-cases, length,
}
use mockulus.Prelude.Utf8.{valid_string}
use mockulus.Stub.FileName.Defs.{
  max_file_name_bytes, is_abs, split_path, join_path, dot, dot_dot, clean, is_control,
  contains_control, reject_file_name,
}
use mockulus.Stub.FileName.Paths.{IsElement, join-split, split-ne-nil}
use mockulus.Stub.FileName.Cleaned.{first_or, clean-cases, elements-clean}

-- A name that the store can hold.
pub record IsFileName (name : Text) : Type 0 where
  pub elements : (name ≡ dot) ⊎ All IsElement (split_path name)
  pub short : length name ≤ max_file_name_bytes
  pub valid : valid_string name ≡ true
  pub visible : All (λ c. is_control c ≡ false) name

contains-All : (s : Text) → contains_control s ≡ false → All (λ c. is_control c ≡ false) s
unfolding contains_control
contains-All [] h = tt
contains-All (c ∷ s) h = (ground arith, contains-All s (ground arith))

All-contains : (s : Text) → All (λ c. is_control c ≡ false) s → contains_control s ≡ false
unfolding contains_control
All-contains [] h = refl
All-contains (c ∷ s) h = ground (arith, h.0, All-contains s h.1)

-- Where the first element climbs, the name does.
climbs-first :
    (l : List Text)
    → text_eq (first_or [] l) dot_dot ≡ true
    → (text_eq (join_path l) dot_dot || has_prefix (join_path l) (codes "../")) ≡ true
unfolding join_path dot_dot text_eq has_prefix
climbs-first [] h = absurd (ground arith)
climbs-first (p ∷ []) h = ground arith
climbs-first (p ∷ q ∷ ps) h =
    let same : p ≡ codes ".." = (text_eq_iff p (codes "..")).0 h in rw same (ground arith)

accepted-elements :
    (name : Text)
    → (text_eq name dot_dot || has_prefix name (codes "../")) ≡ false
    → text_eq (clean name) name ≡ true
    → (name ≡ dot) ⊎ All IsElement (split_path name)
accepted-elements name low e = elim (clean-cases name ((text_eq_iff (clean name) name).0 e)) [
  | inl d ↦ inl d
  | inr (inr all) ↦ inr all
  | inr (inl up) ↦
      let high = climbs-first (split_path name) up in absurd (clash (rw (join-split name) at high))
]
  where
    clash : (text_eq name dot_dot || has_prefix name (codes "../")) ≡ true → ⊥
    clash h = ground arith

accepted-IsFileName : (name : Text) → reject_file_name name ≡ none → IsFileName name
unfolding reject_file_name
accepted-IsFileName name h = record {
  elements = accepted-elements name (ground arith) (ground arith);
  short = ground arith;
  valid = ground arith;
  visible = contains-All name (ground arith);
}

two_dots : first_or [] (split_path (b'.' ∷ b'.' ∷ [])) ≡ codes ".."
unfolding split_path
two_dots = refl

two_dots_slash : (s : Text) → first_or [] (split_path (b'.' ∷ b'.' ∷ b'/' ∷ s)) ≡ codes ".."
unfolding split_path
two_dots_slash s = refl

-- A name that climbs has a first element that does.
first-climbs :
    (name : Text)
    → (text_eq name dot_dot || has_prefix name (codes "../")) ≡ true
    → first_or [] (split_path name) ≡ codes ".."
unfolding split_path dot_dot text_eq has_prefix
first-climbs [] h = absurd (ground arith)
first-climbs (a ∷ []) h = absurd (ground arith)
first-climbs (a ∷ b ∷ []) h =
    let a_dot : a ≡ b'.' = ground arith in
    let b_dot : b ≡ b'.' = ground arith in
    ap (λ x. first_or [] (split_path (x ∷ b ∷ []))) a_dot
    ∙ (ap (λ x. first_or [] (split_path (b'.' ∷ x ∷ []))) b_dot ∙ two_dots)
first-climbs (a ∷ b ∷ c ∷ s) h =
    let a_dot : a ≡ b'.' = ground arith in
    let b_dot : b ≡ b'.' = ground arith in
    let c_slash : c ≡ b'/' = ground arith in
    ap (λ x. first_or [] (split_path (x ∷ b ∷ c ∷ s))) a_dot
    ∙ (ap (λ x. first_or [] (split_path (b'.' ∷ x ∷ c ∷ s))) b_dot
        ∙ (ap (λ x. first_or [] (split_path (b'.' ∷ b'.' ∷ x ∷ s))) c_slash ∙ two_dots_slash s))

first-IsElement : (l : List Text) → l ≢ [] → All IsElement l → IsElement (first_or [] l)
first-IsElement [] ne h = absurd (ne refl)
first-IsElement (p ∷ ps) ne h = h.0

slash-first : (s : Text) → first_or [] (split_path (b'/' ∷ s)) ≡ []
unfolding split_path
slash-first s = refl

nil-first : first_or [] (split_path []) ≡ []
unfolding split_path
nil-first = refl

-- What the first three tests see of a name whose elements stand for themselves, or of a dot.
record Passes (name : Text) : Type 0 where
  relative : is_abs name ≡ false
  low : (text_eq name dot_dot || has_prefix name (codes "../")) ≡ false
  cleaned : clean name ≡ name

dot-Passes : Passes dot
unfolding is_abs text_eq dot_dot dot has_prefix clean
dot-Passes = record { relative = refl; low = refl; cleaned = refl }

element-full : (p : Text) → IsElement p → p ≢ []
element-full p e h = ground (arith, e.full, (text_eq_iff p []).1 h)

relative-elements : (name : Text) → first_or [] (split_path name) ≢ [] → is_abs name ≡ false
unfolding is_abs
relative-elements [] h = refl
relative-elements (c ∷ s) h = elim (Bool-cases (c == b'/')) [
  | inl e ↦ let same : c ≡ b'/' = ground arith in absurd (h (rw same (slash-first s)))
  | inr e ↦ e
]

elements-Passes : (name : Text) → All IsElement (split_path name) → Passes name
unfolding dot_dot
elements-Passes name h =
    let first = first-IsElement (split_path name) (split-ne-nil name) h in
    let full = element-full (first_or [] (split_path name)) first in
    record {
      relative = relative-elements name full;
      low = elim (Bool-cases (text_eq name dot_dot || has_prefix name (codes "../"))) [
        | inl e ↦ absurd (up_clash (first-climbs name e) first.not_up)
        | inr e ↦ e
      ];
      cleaned = elements-clean name (λ e. full (rw e nil-first)) h;
    }
  where
    up_clash : {p : Text} → p ≡ codes ".." → text_eq p dot_dot ≡ false → ⊥
    up_clash {p} e f = ground (arith, (text_eq_iff p dot_dot).1 e)

passes : (name : Text) → (name ≡ dot) ⊎ All IsElement (split_path name) → Passes name
passes name (inl e) = rw e dot-Passes
passes name (inr h) = elements-Passes name h

IsFileName-accepted : (name : Text) → IsFileName name → reject_file_name name ≡ none
unfolding reject_file_name
IsFileName-accepted name h =
    let p = passes name h.elements in
    rw (p.relative, p.low, p.cleaned, text_eq_self name, fits, h.valid, All-contains name h.visible)
      refl
  where
    fits : ltb max_file_name_bytes (length name) ≡ false
    fits = ground (arith, h.short)

-- A name is accepted exactly where it is a dot, or its elements between slashes are all neither
-- empty, nor `.`, nor `..`, and where it also has at most 240 bytes, is valid UTF-8 and has no control
-- character.
pub reject_file_name-IsFileName : (name : Text) → (reject_file_name name ≡ none) ↔ IsFileName name
reject_file_name-IsFileName name = (accepted-IsFileName name, IsFileName-accepted name)

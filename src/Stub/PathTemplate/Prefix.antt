-- ===== src/Stub/PathTemplate/Prefix.antt =====
-- internal/stub/pathtemplate.go: the literal prefix by which the engine skips candidates.
use mockulus.Prelude.{
  ◌≡◌, ◌≢◌, refl, true, some, List, [], ◌∷◌, ◌++◌, Text, text_eq, text_eq_iff, has_prefix, cut_byte,
  ◌==◌, arith, ◌∙◌, Option-cases, Bool-cases, inl, inr,
}
use mockulus.Stub.PathTemplate.Defs.{
  Segment, literal, variable, PathTemplate, leading, compute_template_prefix, consume, walk,
  match_path,
}

cut_byte-append :
    (s part rest : Text) → cut_byte b'/' s ≡ some (part, rest) → s ≡ part ++ b'/' ∷ rest
unfolding cut_byte
cut_byte-append [] part rest h = ground arith
cut_byte-append (c ∷ s) part rest h = elim (Bool-cases (c == b'/')) [
  | inl e ↦ ground arith
  | inr e ↦ elim (Option-cases (cut_byte b'/' s)) [
    | inl o ↦ ground arith
    | inr (x, o) ↦ ground (arith, cut_byte-append s x.0 x.1)
  ]
]

has_prefix-append : (l s p : Text) → has_prefix (l ++ s) (l ++ p) ≡ has_prefix s p
unfolding has_prefix
has_prefix-append [] s p = refl
has_prefix-append (c ∷ l) s p = ground (arith, has_prefix-append l s p)

has_prefix_self : (l : Text) → has_prefix l (l ++ []) ≡ true
unfolding has_prefix
has_prefix_self [] = refl
has_prefix_self (c ∷ l) = ground (arith, has_prefix_self l)

has_prefix_nil : (s : Text) → has_prefix s [] ≡ true
unfolding has_prefix
has_prefix_nil [] = refl
has_prefix_nil (c ∷ s) = refl

module _ {ℓ} {S : Type ℓ} (bind : Text → Text → S → S) where
  walk_last : (l rest : Text) (s : S) → (walk bind (literal l ∷ []) rest s).0 ≡ true → rest ≡ l
  unfolding walk consume
  walk_last l rest s h = elim (Option-cases (cut_byte b'/' rest)) [
    | inl e ↦ ground (arith, text_eq_iff rest l)
    | inr (c, e) ↦ ground arith
  ]

  walk_more :
      (l : Text) (seg : Segment) (segs : List Segment) (rest : Text) (s : S)
      → (walk bind (literal l ∷ seg ∷ segs) rest s).0 ≡ true
      → (c : Text × Text) × (cut_byte b'/' rest ≡ some c)
        × (c.0 ≡ l)
        × ((walk bind (seg ∷ segs) c.1 s).0 ≡ true)
  unfolding walk consume
  walk_more l seg segs rest s h = elim (Option-cases (cut_byte b'/' rest)) [
    | inl e ↦ absurd (ground arith)
    | inr (c, e) ↦ (c, e, ground (arith, text_eq_iff c.0 l), ground arith)
  ]

  walk-leading :
      (seg : Segment) (segs : List Segment) (rest : Text) (s : S)
      → (walk bind (seg ∷ segs) rest s).0 ≡ true
      → has_prefix (b'/' ∷ rest) (leading (seg ∷ segs)) ≡ true
  unfolding leading has_prefix
  walk-leading (variable name) segs rest s h = refl
  walk-leading (literal l) [] rest s h = rw (walk_last l rest s h) (has_prefix_self l)
  walk-leading (literal l) (seg ∷ segs) rest s h =
      let (c, cut, part, more) = walk_more l seg segs rest s h in
      rw (cut_byte-append rest c.0 c.1 cut, part)
        (has_prefix-append l (b'/' ∷ c.1) (leading (seg ∷ segs)) ∙ walk-leading seg segs c.1 s more)

  leading-prefix :
      (segs : List Segment) (rest : Text)
      → has_prefix (b'/' ∷ rest) (leading segs) ≡ true
      → has_prefix (b'/' ∷ rest) (compute_template_prefix segs) ≡ true
  unfolding compute_template_prefix
  leading-prefix segs rest h = elim (Bool-cases (text_eq (leading segs) [])) [
    | inl e ↦ rw e (unfold has_prefix in refl)
    | inr e ↦ rw e h
  ]

  -- Every path that a template matches begins with the template's literal prefix, so that the
  -- engine's test of the prefix skips no candidate that would match.
  pub match_path-has_prefix :
      (t : PathTemplate) (path : Text) (s : S)
      → t.segments ≢ []
      → t.literal_prefix ≡ compute_template_prefix t.segments
      → (match_path bind t path s).0 ≡ true
      → has_prefix path t.literal_prefix ≡ true
  unfolding match_path
  match_path-has_prefix t [] s ne e h = cc
  match_path-has_prefix t (c ∷ rest) s ne e h = rw e (go t.segments refl)
    where
      slash : c ≡ b'/'
      slash = ground (arith, text_eq_iff (c ∷ []) (b'/' ∷ []))

      matched : (walk bind t.segments rest s).0 ≡ true
      matched = ground arith

      go :
          (segs : List Segment)
          → t.segments ≡ segs
          → has_prefix (c ∷ rest) (compute_template_prefix segs) ≡ true
      go [] none_left = absurd (ne none_left)
      go (seg ∷ segs) eq =
          rw slash
            (leading-prefix (seg ∷ segs) rest (walk-leading seg segs rest s (rw eq at matched)))

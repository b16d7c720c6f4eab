-- ===== src/Stub/FileName/Paths.antt =====
-- Package path: which relative paths are clean.
use mockulus.Prelude.{
  ℕ, ◌≡◌, ◌≢◌, inl, inr, refl, sym, ap, ◌∙◌, false, List, [], ◌∷◌, ◌++◌, Text, arith, All, ◌==◌,
  text_eq, Bool-cases,
}
use mathlib.Core.List.{append-nil}
use mockulus.Stub.FileName.Defs.{split_path, join_path, dot, dot_dot}

abbrev pub HasNoSlash : Text → Type 0
HasNoSlash p = All (λ c. (c == b'/') ≡ false) p

-- An element that cleaning leaves where it stands.
pub record IsElement (p : Text) : Type 0 where
  pub full : text_eq p [] ≡ false
  pub not_dot : text_eq p dot ≡ false
  pub not_up : text_eq p dot_dot ≡ false

-- The elements of a text that begins with another byte than a slash.
prepend : ℕ → List Text → List Text
prepend c [] = (c ∷ []) ∷ []
prepend c (p ∷ ps) = (c ∷ p) ∷ ps

split-cons :
    (c : ℕ) (s : Text) → (c == b'/') ≡ false → split_path (c ∷ s) ≡ prepend c (split_path s)
unfolding split_path prepend
split-cons c s h = rw h (go (split_path s))
  where
    go : (l : List Text) → (elim l [ [] ↦ (c ∷ []) ∷ [] | p ∷ ps ↦ (c ∷ p) ∷ ps ]) ≡ prepend c l
    go [] = refl
    go (p ∷ ps) = refl

split-slash : (s : Text) → split_path (b'/' ∷ s) ≡ [] ∷ split_path s
unfolding split_path
split-slash s = refl

split-nil : split_path [] ≡ [] ∷ []
unfolding split_path
split-nil = refl

All-prepend :
    (c : ℕ) (l : List Text) → (c == b'/') ≡ false → All HasNoSlash l → All HasNoSlash (prepend c l)
unfolding prepend
All-prepend c [] h k = ((h, tt), tt)
All-prepend c (p ∷ ps) h k = ((h, k.0), k.1)

pub split-HasNoSlash : (s : Text) → All HasNoSlash (split_path s)
split-HasNoSlash [] = rw split-nil (tt, tt)
split-HasNoSlash (c ∷ s) = elim (Bool-cases (c == b'/')) [
  | inl e ↦ let same : c ≡ b'/' = ground arith in rw (same, split-slash s) (tt, split-HasNoSlash s)
  | inr e ↦ rw (split-cons c s e) (All-prepend c (split_path s) e (split-HasNoSlash s))
]

-- An element with the rest of a path behind it.
behind : List Text → Text
behind [] = []
behind (q ∷ ps) = b'/' ∷ join_path (q ∷ ps)

join-cons : (p : Text) (ps : List Text) → join_path (p ∷ ps) ≡ p ++ behind ps
unfolding join_path behind
join-cons p [] = sym (append-nil p)
join-cons p (q ∷ ps) = refl

split-element :
    (p : Text) (ps : List Text)
    → HasNoSlash p
    → split_path (behind ps) ≡ [] ∷ ps
    → split_path (p ++ behind ps) ≡ p ∷ ps
unfolding prepend
split-element [] ps h e = e
split-element (c ∷ p) ps h e =
    split-cons c (p ++ behind ps) h.0 ∙ ap (prepend c) (split-element p ps h.1 e)

pub split-join :
    (p : Text) (ps : List Text) → All HasNoSlash (p ∷ ps) → split_path (join_path (p ∷ ps)) ≡ p ∷ ps
unfolding behind
split-join p [] h = ap split_path (join-cons p []) ∙ split-element p [] h.0 split-nil
split-join p (q ∷ ps) h =
    ap split_path (join-cons p (q ∷ ps))
    ∙ split-element p (q ∷ ps) h.0
        (split-slash (join_path (q ∷ ps)) ∙ ap (λ l. [] ∷ l) (split-join q ps h.1))

join-prepend : (c : ℕ) (l : List Text) → l ≢ [] → join_path (prepend c l) ≡ c ∷ join_path l
unfolding join_path prepend
join-prepend c [] h = absurd (h refl)
join-prepend c (p ∷ []) h = refl
join-prepend c (p ∷ q ∷ ps) h = refl

prepend-ne-nil : (c : ℕ) (l : List Text) → prepend c l ≢ []
unfolding prepend
prepend-ne-nil c [] h = ground arith
prepend-ne-nil c (p ∷ ps) h = ground arith

pub split-ne-nil : (s : Text) → split_path s ≢ []
split-ne-nil [] h = ground (arith, split-nil)
split-ne-nil (c ∷ s) h = elim (Bool-cases (c == b'/')) [
  | inl e ↦
      let same : c ≡ b'/' = ground arith in
      let h' : split_path (b'/' ∷ s) ≡ [] = rw (← same) h in ground (arith, split-slash s)
  | inr e ↦ prepend-ne-nil c (split_path s) (sym (split-cons c s e) ∙ h)
]

join-slash : (l : List Text) → l ≢ [] → join_path ([] ∷ l) ≡ b'/' ∷ join_path l
unfolding join_path
join-slash [] h = absurd (h refl)
join-slash (p ∷ ps) h = refl

join-nil : join_path ([] ∷ []) ≡ []
unfolding join_path
join-nil = refl

pub join-split : (s : Text) → join_path (split_path s) ≡ s
join-split [] = ap join_path split-nil ∙ join-nil
join-split (c ∷ s) = elim (Bool-cases (c == b'/')) [
  | inl e ↦
      let same : c ≡ b'/' = ground arith in
      rw same (
        ap join_path (split-slash s)
        ∙ join-slash (split_path s) (split-ne-nil s)
        ∙ ap (λ t. b'/' ∷ t) (join-split s))
  | inr e ↦
      ap join_path (split-cons c s e)
      ∙ join-prepend c (split_path s) (split-ne-nil s)
      ∙ ap (λ t. c ∷ t) (join-split s)
]

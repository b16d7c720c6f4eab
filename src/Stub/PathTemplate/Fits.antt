-- ===== src/Stub/PathTemplate/Fits.antt =====
-- internal/stub/pathtemplate.go: the in-place walk of `Match` against the path split at its slashes.
use mockulus.Prelude.{
  ℕ, ◌≡◌, ◌≢◌, refl, Bool, true, false, ◌&&◌, not, none, some, List, [], ◌∷◌, Text, text_eq,
  text_eq_iff, cut_byte, if◌then◌else◌, ◌==◌, arith, Option-cases, Bool-cases, inl, inr,
}
use mockulus.Stub.PathTemplate.Defs.{
  Segment, literal, variable, PathTemplate, consume, walk, match_path,
}

-- `c` in front of the first part.
abbrev prepend : ℕ → List Text → List Text
prepend c [] = (c ∷ []) ∷ []
prepend c (part ∷ parts) = (c ∷ part) ∷ parts

-- The parts between the slashes.
unfoldable pub split : Text → List Text
split [] = [] ∷ []
split (c ∷ s) = let rest = split s in if c == b'/' then [] ∷ rest else prepend c rest

-- A literal is met by itself, a variable by any text that is not empty.
unfoldable pub accepts : Segment → Text → Bool
accepts (literal l) part = text_eq part l
accepts (variable name) part = not (text_eq part [])

-- Segment by segment, with none left over on either side.
unfoldable pub fits : List Segment → List Text → Bool
unfolding accepts
fits [] [] = true
fits [] (part ∷ parts) = false
fits (seg ∷ segs) [] = false
fits (seg ∷ segs) (part ∷ parts) = accepts seg part && fits segs parts

cut_byte-split-none : (s : Text) → cut_byte b'/' s ≡ none → split s ≡ s ∷ []
unfolding cut_byte split
cut_byte-split-none [] h = refl
cut_byte-split-none (c ∷ s) h = ground (arith, cut_byte-split-none s)

cut_byte-split-some :
    (s part rest : Text) → cut_byte b'/' s ≡ some (part, rest) → split s ≡ part ∷ split rest
unfolding cut_byte split
cut_byte-split-some [] part rest h = ground arith
cut_byte-split-some (c ∷ s) part rest h = elim (Bool-cases (c == b'/')) [
  | inl e ↦ ground arith
  | inr e ↦ elim (Option-cases (cut_byte b'/' s)) [
    | inl o ↦ ground arith
    | inr (x, o) ↦ ground (arith, cut_byte-split-some s x.0 x.1)
  ]
]

-- What the variables are bound to, in order.
unfoldable pub bind_all {ℓ} :
    {S : Type ℓ} → (Text → Text → S → S) → List Segment → List Text → S → S
bind_all bind (literal l ∷ segs) (part ∷ parts) s = bind_all bind segs parts s
bind_all bind (variable name ∷ segs) (part ∷ parts) s = bind_all bind segs parts (bind name part s)
bind_all bind _ _ s = s

fits-nil-split : (s : Text) → fits [] (split s) ≡ false
unfolding fits split
fits-nil-split [] = refl
fits-nil-split (c ∷ s) = ground arith

and_false : (b : Bool) → (b && false) ≡ false
and_false b = ground arith

and_true : (b : Bool) → (b && true) ≡ b
and_true b = ground arith

module _ {ℓ} {S : Type ℓ} (bind : Text → Text → S → S) where
  consume-accepts :
      (seg : Segment) (part : Text) (next : S → Bool × S) (b : Bool)
      → ((s : S) → (next s).0 ≡ b)
      → (s : S) → (consume bind seg part next s).0 ≡ (accepts seg part && b)
  unfolding consume accepts
  consume-accepts (literal l) part next b h s = ground (arith, h s)
  consume-accepts (variable name) part next b h s = ground (arith, h (bind name part s))

  walk-fits :
      (seg : Segment) (segs : List Segment) (rest : Text) (s : S)
      → (walk bind (seg ∷ segs) rest s).0 ≡ fits (seg ∷ segs) (split rest)
  unfolding walk fits text_eq
  walk-fits seg [] rest s = elim (Option-cases (cut_byte b'/' rest)) [
    | inl e ↦
        rw (e, walk, cut_byte-split-none rest e)
          (consume-accepts seg rest (walk bind [] []) true (λ _. refl) s)
    | inr (c, e) ↦
        rw (e, walk, cut_byte-split-some rest c.0 c.1 e) (rw fits-nil-split (rw and_false refl))
  ]
  walk-fits seg (seg' ∷ segs) rest s = elim (Option-cases (cut_byte b'/' rest)) [
    | inl e ↦ rw (e, walk, cut_byte-split-none rest e) (rw and_false refl)
    | inr (c, e) ↦
        rw (e, walk, cut_byte-split-some rest c.0 c.1 e)
          (consume-accepts seg c.0 (walk bind (seg' ∷ segs) c.1) (fits (seg' ∷ segs) (split c.1))
            (walk-fits seg' segs c.1) s)
  ]

  consume-bind_all :
      (seg : Segment) (segs : List Segment) (part : Text) (parts : List Text) (next : S → Bool × S)
      → ((s : S) → (next s).0 ≡ true → (next s).1 ≡ bind_all bind segs parts s)
      → (s : S) → (consume bind seg part next s).0 ≡ true
      → (consume bind seg part next s).1 ≡ bind_all bind (seg ∷ segs) (part ∷ parts) s
  unfolding consume bind_all
  consume-bind_all (literal l) segs part parts next h s = ground (arith, h s)
  consume-bind_all (variable name) segs part parts next h s = ground (arith, h (bind name part s))

  walk-bind_all :
      (seg : Segment) (segs : List Segment) (rest : Text) (s : S)
      → (walk bind (seg ∷ segs) rest s).0 ≡ true
      → (walk bind (seg ∷ segs) rest s).1 ≡ bind_all bind (seg ∷ segs) (split rest) s
  unfolding walk bind_all
  walk-bind_all seg [] rest s = elim (Option-cases (cut_byte b'/' rest)) [
    | inl e ↦
        rw (e, walk, cut_byte-split-none rest e)
          (consume-bind_all seg [] rest [] (walk bind [] []) (λ _ _. refl) s)
    | inr (c, e) ↦ rw (e, walk, cut_byte-split-some rest c.0 c.1 e) (λ h. cc)
  ]
  walk-bind_all seg (seg' ∷ segs) rest s = elim (Option-cases (cut_byte b'/' rest)) [
    | inl e ↦ rw (e, walk, cut_byte-split-none rest e) (λ h. cc)
    | inr (c, e) ↦
        rw (e, walk, cut_byte-split-some rest c.0 c.1 e)
          (consume-bind_all seg (seg' ∷ segs) c.0 (split c.1) (walk bind (seg' ∷ segs) c.1)
            (walk-bind_all seg' segs c.1) s)
  ]

-- A path is its leading slash and parts that fit the template's segments.
abbrev pub path_fits : PathTemplate → Text → Bool
path_fits t [] = false
path_fits t (c ∷ rest) = (c == b'/') && fits t.segments (split rest)

-- The bindings of a path, from its parts behind the leading slash.
abbrev pub path_bindings {ℓ} : {S : Type ℓ} → (Text → Text → S → S) → PathTemplate → Text → S → S
path_bindings bind t [] s = s
path_bindings bind t (c ∷ rest) s = bind_all bind t.segments (split rest) s

module _ {ℓ} {S : Type ℓ} (bind : Text → Text → S → S) where
  match-segments :
      (seg : Segment) (segs : List Segment) (t : PathTemplate) (path : Text) (s : S)
      → t.segments ≡ seg ∷ segs
      → ((match_path bind t path s).0 ≡ path_fits t path)
        × ((match_path bind t path s).0 ≡ true
            → (match_path bind t path s).1 ≡ path_bindings bind t path s)
  unfolding match_path
  match-segments seg segs t [] s e = (refl, λ h. cc)
  match-segments seg segs t (c ∷ rest) s e = rw e (
    ground (arith, text_eq_iff (c ∷ []) (b'/' ∷ []), walk-fits bind seg segs rest s),
    λ h. ground (arith, walk-bind_all bind seg segs rest s),
  )

  match_path_lem :
      (t : PathTemplate) (path : Text) (s : S)
      → t.segments ≢ []
      → ((match_path bind t path s).0 ≡ path_fits t path)
        × ((match_path bind t path s).0 ≡ true
            → (match_path bind t path s).1 ≡ path_bindings bind t path s)
  match_path_lem t path s h = go t.segments refl
    where
      go :
          (segs : List Segment)
          → t.segments ≡ segs
          → ((match_path bind t path s).0 ≡ path_fits t path)
            × ((match_path bind t path s).0 ≡ true
                → (match_path bind t path s).1 ≡ path_bindings bind t path s)
      go [] e = absurd (h e)
      go (seg ∷ segs) e = match-segments seg segs t path s e

  -- A template that has segments matches exactly the paths that begin with a slash and whose
  -- parts between slashes fit its segments one by one: a literal equal, a variable not empty, and
  -- none left over on either side.
  pub match_path-path_fits :
      (t : PathTemplate) (path : Text) (s : S)
      → t.segments ≢ []
      → (match_path bind t path s).0 ≡ path_fits t path
  match_path-path_fits t path s h = (match_path_lem t path s h).0

  -- A match binds each variable of the template to its part of the path, in order, and changes
  -- nothing else.
  pub match_path-path_bindings :
      (t : PathTemplate) (path : Text) (s : S)
      → t.segments ≢ []
      → (match_path bind t path s).0 ≡ true
      → (match_path bind t path s).1 ≡ path_bindings bind t path s
  match_path-path_bindings t path s h = (match_path_lem t path s h).1

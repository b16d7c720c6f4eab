-- ===== src/Stub/PathTemplate/Parse.antt =====
-- internal/stub/pathtemplate.go: `ParsePathTemplate`, and what an accepted template looks like.
use mockulus.Prelude.{
  ℕ, ◌≡◌, refl, Bool, false, ◌||◌, Option, none, some, List, [], ◌∷◌, Text, codes, text_eq,
  if◌then◌else◌, ◌==◌,
}
use mockulus.Stub.PathTemplate.Defs.{
  Segment, literal, variable, PathTemplate, compute_template_prefix,
}
use mockulus.Stub.PathTemplate.Fits.{split}

pub data TemplateError : Type 0 where
  empty no_leading_slash unnamed_variable : TemplateError
  malformed_variable : Text → TemplateError
  bound_twice : Text → TemplateError
  partial_variable : TemplateError

-- A template, or part of one, or why there is none.
pub data Parsed (A : Type 0) : Type 0 where
  err : TemplateError → Parsed A
  ok : A → Parsed A

infixl 5 ◌>>=◌
abbrev pub ◌>>=◌ : {A B : Type 0} → Parsed A → (A → Parsed B) → Parsed B
err why >>= rest = err why
ok a >>= rest = rest a

-- `strings.ContainsAny` for one byte, and for two.
unfoldable pub contains_byte : ℕ → Text → Bool
contains_byte b [] = false
contains_byte b (c ∷ s) = (c == b) || contains_byte b s

unfoldable pub has_brace : Text → Bool
unfolding contains_byte
has_brace s = contains_byte b'{' s || contains_byte b'}' s

-- The text in front of a last byte `b`.
unfoldable pub strip_last : ℕ → Text → Option Text
strip_last b [] = none
strip_last b (c ∷ []) = if c == b then some [] else none
strip_last b (c ∷ d ∷ s) = elim (strip_last b (d ∷ s)) [ none ↦ none | some init ↦ some (c ∷ init) ]

-- The name in a part that begins with `{` and ends with `}`.
unfoldable pub braced : Text → Option Text
unfolding strip_last
braced [] = none
braced (c ∷ s) = if c == b'{' then strip_last b'}' s else none

unfoldable pub mem : Text → List Text → Bool
mem name [] = false
mem name (n ∷ seen) = text_eq n name || mem name seen

-- The body of the loop for a part: the segment that it adds.
unfoldable pub parse_part : List Text → Text → Parsed Segment
unfolding braced has_brace mem
parse_part seen part = elim (braced part) [
  | some name ↦
      if text_eq name []
      then err unnamed_variable
      else if has_brace name || contains_byte b'/' name
      then err (malformed_variable part)
      else if mem name seen
      then err (bound_twice name)
      else ok (variable name)
  | none ↦ if has_brace part then err partial_variable else ok (literal part)
]

abbrev pub note_name : Segment → List Text → List Text
note_name (variable name) seen = name ∷ seen
note_name (literal l) seen = seen

-- The loop over the parts: `seen` holds the names bound so far.
unfoldable pub parse_parts : List Text → List Text → Parsed (List Segment)
unfolding parse_part
parse_parts seen [] = ok []
parse_parts seen (part ∷ parts) = parse_part seen part >>= λ seg.
    parse_parts (note_name seg seen) parts >>= λ segs. ok (seg ∷ segs)

-- `t.vars`, which the loop fills beside the segments.
unfoldable pub names : List Segment → List Text
names [] = []
names (variable name ∷ segs) = name ∷ names segs
names (literal l ∷ segs) = names segs

-- The template of the segments that the loop has collected.
abbrev pub template_of : Text → List Segment → PathTemplate
template_of source segs = record {
  source = source;
  segments = segs;
  vars = names segs;
  literal_prefix = compute_template_prefix segs;
}

unfoldable pub parse_path_template : Text → Parsed PathTemplate
unfolding parse_parts
parse_path_template [] = err empty
parse_path_template (c ∷ rest) =
    if c == b'/'
    then (parse_parts [] (split rest) >>= λ segs. ok (template_of (c ∷ rest) segs))
    else err no_leading_slash

two_variables :
    (t : PathTemplate) × (parse_path_template (codes "/orders/{id}/items/{item}") ≡ ok t)
    × (t.vars ≡ codes "id" ∷ codes "item" ∷ [])
    × (t.literal_prefix ≡ codes "/orders")
unfolding parse_path_template names split compute_template_prefix text_eq
two_variables = (_, refl, refl, refl)

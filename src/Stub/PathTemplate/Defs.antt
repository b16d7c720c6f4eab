-- ===== src/Stub/PathTemplate/Defs.antt =====
-- internal/stub/pathtemplate.go: the compiled template and the walk of a path along it.
use mockulus.Prelude.{
  Bool, true, false, none, some, List, [], ◌∷◌, ◌++◌, Text, text_eq, cut_byte, if◌then◌else◌,
}

-- `templateSegment`, by its flag `isVar`.
pub data Segment : Type 0 where
  literal : Text → Segment
  variable : Text → Segment

pub record PathTemplate : Type 0 where
  pub source : Text
  pub segments : List Segment
  pub vars : List Text
  pub literal_prefix : Text

-- The literal segments in front of the first variable, each behind its slash.
unfoldable pub leading : List Segment → Text
leading [] = []
leading (variable name ∷ segs) = []
leading (literal l ∷ segs) = b'/' ∷ l ++ leading segs

unfoldable pub compute_template_prefix : List Segment → Text
unfolding leading
compute_template_prefix segs = if text_eq (leading segs) [] then b'/' ∷ [] else leading segs

module _ {ℓ} {S : Type ℓ} (bind : Text → Text → S → S) where
  -- The end of a round of the loop, on the path's `part` for the segment.
  unfoldable pub consume : Segment → Text → (S → Bool × S) → S → Bool × S
  consume (variable name) part next s =
      if text_eq part [] then (false, s) else next (bind name part s)
  consume (literal l) part next s = if text_eq part l then next s else (false, s)

  -- The loop of `Match` over the segments left. With segments left over a path that ran out fails,
  -- and so does a path with more parts than segments.
  unfoldable pub walk : List Segment → Text → S → Bool × S
  unfolding consume
  walk [] rest s = (text_eq rest [], s)
  walk (seg ∷ []) rest s = elim (cut_byte b'/' rest) [
    | some c ↦ (false, s)
    | none ↦ consume seg rest (walk [] []) s
  ]
  walk (seg ∷ seg' ∷ segs) rest s = elim (cut_byte b'/' rest) [
    | some (part, rest') ↦ consume seg part (walk (seg' ∷ segs) rest') s
    | none ↦ (false, s)
  ]

  unfoldable pub match_path : PathTemplate → Text → S → Bool × S
  unfolding walk
  match_path t [] s = (false, s)
  match_path t (c ∷ rest) s = elim (text_eq (c ∷ []) (b'/' ∷ [])) [
    | true ↦ walk t.segments rest s
    | false ↦ (false, s)
  ]

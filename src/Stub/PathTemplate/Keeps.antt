-- ===== src/Stub/PathTemplate/Keeps.antt =====
-- internal/stub/pathtemplate.go: what each binding keeps, a match keeps.
use mockulus.Prelude.{
  Bool, List, [], ◌∷◌, Text, text_eq, cut_byte, inl, inr, Bool-cases, Option-cases,
}
use mockulus.Stub.PathTemplate.Defs.{
  Segment, literal, variable, PathTemplate, consume, walk, match_path,
}

module _ {ℓ κ} {S : Type ℓ} (bind : Text → Text → S → S) (P : S → Type κ)
    (keeps : (name value : Text) (s : S) → P s → P (bind name value s)) where
  consume-keeps :
      (seg : Segment) (part : Text) (next : S → Bool × S)
      → ((s : S) → P s → P (next s).1)
      → (s : S) → P s
      → P (consume bind seg part next s).1
  unfolding consume
  consume-keeps (literal l) part next h s p = elim (Bool-cases (text_eq part l)) [
    | inl e ↦ rw e (h s p)
    | inr e ↦ rw e p
  ]
  consume-keeps (variable name) part next h s p = elim (Bool-cases (text_eq part [])) [
    | inl e ↦ rw e p
    | inr e ↦ rw e (h (bind name part s) (keeps name part s p))
  ]

  walk-keeps : (segs : List Segment) (rest : Text) (s : S) → P s → P (walk bind segs rest s).1
  unfolding walk
  walk-keeps [] rest s p = p
  walk-keeps (seg ∷ []) rest s p = elim (Option-cases (cut_byte b'/' rest)) [
    | inl e ↦ rw (e, walk) (consume-keeps seg rest (walk bind [] []) (λ s' q. q) s p)
    | inr (c, e) ↦ rw (e, walk) p
  ]
  walk-keeps (seg ∷ seg' ∷ segs) rest s p = elim (Option-cases (cut_byte b'/' rest)) [
    | inl e ↦ rw (e, walk) p
    | inr (c, e) ↦
        rw (e, walk)
          (consume-keeps seg c.0 (walk bind (seg' ∷ segs) c.1) (walk-keeps (seg' ∷ segs) c.1) s p)
  ]

  pub match_path-keeps :
      (t : PathTemplate) (path : Text) (s : S) → P s → P (match_path bind t path s).1
  unfolding match_path
  match_path-keeps t [] s p = p
  match_path-keeps t (c ∷ rest) s p = elim (Bool-cases (text_eq (c ∷ []) (b'/' ∷ []))) [
    | inl e ↦ rw (e, match_path) (walk-keeps t.segments rest s p)
    | inr e ↦ rw (e, match_path) p
  ]

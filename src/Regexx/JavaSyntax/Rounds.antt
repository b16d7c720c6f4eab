-- ===== src/Regexx/JavaSyntax/Rounds.antt =====
-- internal/regexx/javasyntax.go: a round of the loop, and the whole pass.
use mockulus.Prelude.{
  ℕ, zero, suc, ◌+◌, ◌<◌, ◌≤◌, ◌≡◌, ◌≢◌, inl, inr, Bool, Option, none, some, [], ◌∷◌, Text, codes,
  arith, Bool-cases, length, take, drop, ◌==◌, ◌||◌, if◌then◌else◌, ltb, take-append-drop,
  length-drop-le,
}
use mockulus.Prelude.Utf8.{rune_width}
use mockulus.Regexx.JavaSyntax.Escapes.{escape_width, counted_closure, counted_closure-IsWide}
use mockulus.Regexx.JavaSyntax.Rewrite.{
  JavaTranslator, Cursor, emit, begin_atom, no_atom, max_translated_bytes, quantifier_suffix,
  open_group, brace, literal, ok, err, unfinished, Result,
}
use mockulus.Regexx.JavaSyntax.Scan.{class, step, next_round, finish, checked, run}
use mockulus.Regexx.JavaSyntax.Copies.{
  Copied, HasAdvanced, emit-Copied, take-Copied, quantifier_suffix-Advanced, close_group-Copied,
  after_paren-Advanced, brace-Advanced, write_escape-Copied, class_loop-HasAdvanced,
}

pub rune_width-pos : (c : ℕ) (s : Text) → 0 < rune_width (c ∷ s)
unfolding rune_width
rune_width-pos c s = ground arith

module _ (source : Text) (is_script : Text → Bool) where
  class-HasAdvanced :
      (i : ℕ) (s : Text) (t : JavaTranslator)
      → Copied source (b'[' ∷ s) t
      → HasAdvanced source (length s) (class is_script (i, s) t)
  unfolding class
  class-HasAdvanced i [] t h =
      class_loop-HasAdvanced source is_script 0 0 (length t.out) i [] (emit (codes "[") t)
        (omega arith) (omega arith) (emit-Copied source (codes "[") [] t h)
  class-HasAdvanced i (x ∷ s) t h = elim (Bool-cases (x == b'^')) [
    | inl e ↦
        let same : x ≡ b'^' = ground arith in
        rw e (
          class_loop-HasAdvanced source is_script (suc (length s)) (length s) (length t.out) (i + 1)
            s (emit (codes "[^") t) (omega arith) (omega arith)
            (emit-Copied source (codes "[^") s t (rw (← same) h)))
    | inr e ↦ rw e (
        class_loop-HasAdvanced source is_script (suc (length s)) (suc (length s)) (length t.out) i
          (x ∷ s) (emit (codes "[") t) (omega arith) (omega arith)
          (emit-Copied source (codes "[") (x ∷ s) t h))
  ]

  -- The cases of a byte that no branch names.
  plain-HasAdvanced :
      (i x : ℕ) (s : Text) (t : JavaTranslator)
      → Copied source (x ∷ s) t
      → HasAdvanced source (length s) (
          if (x == b'|') || ((x == b'^') || (x == b'$'))
          then ok ((i + 1, s), no_atom (emit (x ∷ []) t))
          else ok (literal i (x ∷ s) t))
  unfolding literal
  plain-HasAdvanced i x s t h = elim (Bool-cases ((x == b'|') || ((x == b'^') || (x == b'$')))) [
    | inl e ↦ rw e (emit-Copied source (x ∷ []) s t h, omega arith)
    | inr e ↦ rw e (
      take-Copied source (rune_width (x ∷ s)) (x ∷ s) (begin_atom t) h,
      shorter (rune_width (x ∷ s)) (rune_width-pos x s),
    )
  ]
    where
      shorter : (n : ℕ) → 0 < n → length (drop n (x ∷ s)) ≤ length s
      shorter zero p = absurd (omega (arith, p))
      shorter (suc n) p = length-drop-le n s

  quantified-HasAdvanced :
      (i x : ℕ) (s : Text) (t : JavaTranslator)
      → Copied source (x ∷ s) t
      → HasAdvanced source (length s) (
          if (x == b'*') || ((x == b'+') || (x == b'?'))
          then ok (quantifier_suffix (i + 1, s) (emit (x ∷ []) t))
          else if x == b'{'
          then ok (brace (counted_closure s) i s t)
          else if (x == b'|') || ((x == b'^') || (x == b'$'))
          then ok ((i + 1, s), no_atom (emit (x ∷ []) t))
          else ok (literal i (x ∷ s) t))
  quantified-HasAdvanced i x s t h =
      elim (Bool-cases ((x == b'*') || ((x == b'+') || (x == b'?')))) [
        | inl e ↦ rw e (
            quantifier_suffix-Advanced source (i + 1) s (emit (x ∷ []) t)
              (emit-Copied source (x ∷ []) s t h))
        | inr e ↦ rw e (elim (Bool-cases (x == b'{')) [
          | inl q ↦
              let same : x ≡ b'{' = ground arith in
              rw q (
                brace-Advanced source (counted_closure s) i s t (counted_closure-IsWide s)
                  (rw (← same) h))
          | inr q ↦ rw q (plain-HasAdvanced i x s t h)
        ])
      ]

  pub step-HasAdvanced :
      (i x : ℕ) (s : Text) (t : JavaTranslator)
      → Copied source (x ∷ s) t
      → HasAdvanced source (length s) (step is_script i x s t)
  unfolding step
  step-HasAdvanced i x s t h = elim (Bool-cases (x == b'\\')) [
    | inl e ↦
        let same : x ≡ b'\\' = ground arith in
        let w = escape_width s in
        rw e (
          write_escape-Copied source is_script (take w s) (drop w s) t
              (rw (take-append-drop w s) (rw (← same) h)),
          length-drop-le w s,
        )
    | inr e ↦ rw e (elim (Bool-cases (x == b'[')) [
      | inl q ↦
          let same : x ≡ b'[' = ground arith in rw q (class-HasAdvanced (i + 1) s t (rw (← same) h))
      | inr q ↦ rw q (elim (Bool-cases (x == b'(')) [
        | inl p ↦
            let same : x ≡ b'(' = ground arith in
            rw p (after_paren-Advanced source (i + 1) s (open_group t) (opened s t (rw (← same) h)))
        | inr p ↦ rw p (elim (Bool-cases (x == b')')) [
          | inl c ↦
              let same : x ≡ b')' = ground arith in
              rw c (close_group-Copied source t.groups s t (rw (← same) h), omega arith)
          | inr c ↦ rw c (quantified-HasAdvanced i x s t h)
        ])
      ])
    ])
  ]
    where
      opened :
          (s : Text) (t : JavaTranslator)
          → Copied source (b'(' ∷ s) t
          → Copied source s (open_group t)
      opened s t (inl h) = inl h
      opened s t (inr h) = emit-Copied source (codes "(") s t (inr h)

  -- What a run gives: with all of the source written where nothing was rewritten, or a refusal that
  -- is not for want of fuel.
  abbrev pub HasRun : Result JavaTranslator → Type 0
  HasRun (ok t) = Copied source [] t
  HasRun (err p) = p ≢ unfinished

  finish-HasRun : (o : Option ℕ) (t : JavaTranslator) → Copied source [] t → HasRun (finish o t)
  finish-HasRun none t h = h
  finish-HasRun (some i) t h = λ c. ground arith

  checked-HasRun :
      (o : Option ℕ) (t : JavaTranslator) (continue : Result JavaTranslator)
      → HasRun continue
      → HasRun (checked o t continue)
  checked-HasRun (some i) t continue h = λ c. ground arith
  checked-HasRun none t continue h = elim (Bool-cases (ltb max_translated_bytes (length t.out))) [
    | inl e ↦ rw e (λ c. ground arith)
    | inr e ↦ rw e h
  ]

  next_round-HasRun :
      (n : ℕ) (r : Result (Cursor × JavaTranslator))
      (continue : Cursor → JavaTranslator → Result JavaTranslator)
      → HasAdvanced source n r
      → ((i : ℕ) (s : Text) (t : JavaTranslator)
          → length s ≤ n
          → Copied source s t
          → HasRun (continue (i, s) t))
      → HasRun (next_round continue r)
  next_round-HasRun n (ok ((i, s), t)) continue (h, less) go = go i s t less h
  next_round-HasRun n (err p) continue h go = h

  pub run-HasRun :
      (fuel i : ℕ) (s : Text) (t : JavaTranslator)
      → length s ≤ fuel
      → Copied source s t
      → HasRun (run is_script fuel (i, s) t)
  unfolding run
  run-HasRun fuel i [] t enough h = finish-HasRun t.failed t h
  run-HasRun zero i (x ∷ s) t enough h = absurd (omega arith)
  run-HasRun (suc fuel) i (x ∷ s) t enough h = checked-HasRun t.failed t _ (
      next_round-HasRun (length s) (step is_script i x s t) (run is_script fuel)
        (step-HasAdvanced i x s t h)
        (λ j s' t' less h'. run-HasRun fuel j s' t' (omega (arith, less, enough)) h'))

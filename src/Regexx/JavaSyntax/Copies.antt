-- ===== src/Regexx/JavaSyntax/Copies.antt =====
-- internal/regexx/javasyntax.go: until it rewrites something, the pass has written what it has read.
use mockulus.Prelude.{
  ℕ, zero, suc, ◌+◌, ◌-◌, ◌≤◌, ◌≡◌, ◌≢◌, ◌⊎◌, inl, inr, refl, ◌∙◌, Bool, true, Option, none, some,
  List, [], ◌∷◌, ◌++◌, Text, codes, arith, Bool-cases, length, take, drop, ◌==◌, take-append-drop,
  length-drop-le,
}
use mathlib.Core.List.{append_assoc}
use mockulus.Prelude.Utf8.{rune_width}
use mockulus.Regexx.JavaSyntax.Escapes.{escape_width, quoted_text, IsWide}
use mockulus.Regexx.JavaSyntax.Ranges.{class_rune}
use mockulus.Regexx.JavaSyntax.Rewrite.{
  JavaTranslator, Cursor, emit, begin_atom, no_atom, make_atomic, refuse_quantifier, possessive,
  quantifier_suffix, write_quoted, Meaning, write_outside, write_inside, is_quotation,
  is_line_break, after_paren, close_group, brace, ok, err, unfinished, members, written, verbatim,
  Result,
}
use mockulus.Regexx.JavaSyntax.Scan.{
  meaning, write_escape, class_escape, after_class_escape, doubled, class_loop,
}

-- The output and what is left of the source are the source, as long as nothing is rewritten.
abbrev pub Copied : Text → Text → JavaTranslator → Type 0
Copied source s t = (t.changed ≡ true) ⊎ (t.out ++ s ≡ source)

module _ (source : Text) where
  pub emit-Copied :
      (w s : Text) (t : JavaTranslator) → Copied source (w ++ s) t → Copied source s (emit w t)
  emit-Copied w s t (inl h) = inl h
  emit-Copied w s t (inr h) = inr (append_assoc t.out w s ∙ h)

  pub take-Copied :
      (n : ℕ) (s : Text) (t : JavaTranslator)
      → Copied source s t
      → Copied source (drop n s) (emit (take n s) t)
  take-Copied n s t h = emit-Copied (take n s) (drop n s) t (rw (take-append-drop n s) h)

  write_quoted-changed :
      (skip : ℕ) (s : Text) (t : JavaTranslator) → (write_quoted skip s t).changed ≡ true
  unfolding write_quoted
  write_quoted-changed skip [] t = refl
  write_quoted-changed (suc skip) (c ∷ s) t = write_quoted-changed skip s (emit (c ∷ []) t)
  write_quoted-changed zero (c ∷ s) t = ground (
    arith,
    write_quoted-changed 0 s (emit (class_rune c) (begin_atom t)),
    write_quoted-changed (rune_width (c ∷ s) - 1) s (emit (c ∷ []) (begin_atom t)),
  )

  -- A cursor and a state behind at most `n` bytes of the source.
  abbrev pub Advanced : ℕ → Cursor × JavaTranslator → Type 0
  Advanced n (c, t) = Copied source c.1 t × length c.1 ≤ n

  refuse_quantifier-changed :
      (c : Cursor) (t : JavaTranslator) → (refuse_quantifier c t).changed ≡ t.changed
  unfolding refuse_quantifier
  refuse_quantifier-changed (i, []) t = refl
  refuse_quantifier-changed (i, x ∷ s) t = ground arith

  possessive-Advanced :
      (o : Option ℕ) (i : ℕ) (s : Text) (t : JavaTranslator)
      → Copied source s t
      → Advanced (length s) (possessive o (i, s) t)
  unfolding possessive
  possessive-Advanced none i s t h = (h, omega arith)
  possessive-Advanced (some a) i s t h = (
    inl (refuse_quantifier-changed (i + 1, drop 1 s) (no_atom (make_atomic a t)) ∙ atomic),
    length-drop-le 1 s,
  )
    where
      atomic : (make_atomic a t).changed ≡ true
      atomic = refl

  pub quantifier_suffix-Advanced :
      (i : ℕ) (s : Text) (t : JavaTranslator)
      → Copied source s t
      → Advanced (length s) (quantifier_suffix (i, s) t)
  unfolding quantifier_suffix
  quantifier_suffix-Advanced i [] t h = (h, omega arith)
  quantifier_suffix-Advanced i (x ∷ s) t h = elim (Bool-cases (x == b'+')) [
    | inl e ↦ rw e (possessive-Advanced t.atom i (x ∷ s) t h)
    | inr e ↦ rw e (elim (Bool-cases (x == b'?')) [
      | inl q ↦
          let same : x ≡ b'?' = ground arith in
          rw q (emit-Copied (codes "?") s t (rw (← same) h), omega arith)
      | inr q ↦ rw q (h, omega arith)
    ])
  ]

  pub close_group-Copied :
      (gs : List ℕ) (s : Text) (t : JavaTranslator)
      → Copied source (b')' ∷ s) t
      → Copied source s (close_group gs t)
  unfolding close_group
  close_group-Copied [] s t h = emit-Copied (codes ")") s t h
  close_group-Copied (g ∷ gs) s t h = emit-Copied (codes ")") s t h

  pub after_paren-Advanced :
      (i : ℕ) (s : Text) (t : JavaTranslator)
      → Copied source s t
      → Advanced (length s) (after_paren (i, s) t)
  unfolding after_paren
  after_paren-Advanced i [] t h = (h, omega arith)
  after_paren-Advanced i (x ∷ s) t h = elim (Bool-cases (x == b'?')) [
    | inl q ↦
        let same : x ≡ b'?' = ground arith in
        rw q (emit-Copied (codes "?") s t (rw (← same) h), omega arith)
    | inr q ↦ rw q (h, omega arith)
  ]

  pub brace-Advanced :
      (o : Option ℕ) (i : ℕ) (s : Text) (t : JavaTranslator)
      → IsWide o
      → Copied source (b'{' ∷ s) t
      → Advanced (length s) (brace o i s t)
  unfolding brace
  brace-Advanced none i s t wide h = (emit-Copied (codes "{") s (begin_atom t) h, omega arith)
  brace-Advanced (some zero) i s t wide h = absurd (omega (arith, wide))
  brace-Advanced (some (suc n)) i s t wide h =
      let next = take-Copied (suc n) (b'{' ∷ s) t h in
      let (kept, less) =
        quantifier_suffix-Advanced (i + suc n) (drop n s) (emit (b'{' ∷ take n s) t) next in
      (kept, omega (arith, length-drop-le n s))

  write_outside-Copied :
      (m : Meaning) (esc s : Text) (t : JavaTranslator)
      → Copied source (b'\\' ∷ esc ++ s) t
      → Copied source s (write_outside esc m t)
  unfolding write_outside
  write_outside-Copied (members rs) esc s t h = inl refl
  write_outside-Copied (written w) esc s t h = inl refl
  write_outside-Copied verbatim esc s t h = emit-Copied (b'\\' ∷ esc) s (begin_atom t) h

  write_inside-Copied :
      (m : Meaning) (esc s : Text) (t : JavaTranslator)
      → Copied source (b'\\' ∷ esc ++ s) t
      → Copied source s (write_inside esc m t)
  unfolding write_inside
  write_inside-Copied (members rs) esc s t h = inl refl
  write_inside-Copied (written w) esc s t h = inl refl
  write_inside-Copied verbatim esc s t h = emit-Copied (b'\\' ∷ esc) s t h

  -- What comes of a part of the pass: the bytes left, or a refusal that is not for want of fuel.
  abbrev pub HasAdvanced : ℕ → Result (Cursor × JavaTranslator) → Type 0
  HasAdvanced n (ok v) = Advanced n v
  HasAdvanced n (err p) = p ≢ unfinished

  module _ (is_script : Text → Bool) where
    pub write_escape-Copied :
        (esc s : Text) (t : JavaTranslator)
        → Copied source (b'\\' ∷ esc ++ s) t
        → Copied source s (write_escape is_script esc t)
    unfolding write_escape
    write_escape-Copied esc s t h = elim (Bool-cases (is_quotation esc)) [
      | inl e ↦ rw e (inl (write_quoted-changed 0 (quoted_text (drop 1 esc)) t))
      | inr e ↦ rw e (elim (Bool-cases (is_line_break esc)) [
        | inl q ↦ rw q (inl refl)
        | inr q ↦ rw q (write_outside-Copied (meaning is_script esc) esc s t h)
      ])
    ]

    class_step-HasAdvanced :
        (n i j : ℕ) (esc s : Text) (t : JavaTranslator)
        (continue : Cursor → JavaTranslator → Result (Cursor × JavaTranslator))
        → Copied source (b'\\' ∷ esc ++ s) t
        → ((t' : JavaTranslator) → Copied source s t' → HasAdvanced n (continue (j, s) t'))
        → HasAdvanced n (after_class_escape continue (j, s) (class_escape is_script i esc t))
    unfolding class_escape
    class_step-HasAdvanced n i j esc s t continue h go = elim (Bool-cases (is_quotation esc)) [
      | inl e ↦ rw e (go _ (inl (write_quoted-changed 0 (quoted_text (drop 1 esc)) t)))
      | inr e ↦ rw e (elim (Bool-cases (is_line_break esc)) [
        | inl q ↦ rw q (λ c. ground arith)
        | inr q ↦ rw q (go _ (write_inside-Copied (meaning is_script esc) esc s t h))
      ])
    ]

    pub class_loop-HasAdvanced :
        (n fuel start_of i : ℕ) (s : Text) (t : JavaTranslator)
        → length s ≤ fuel
        → length s ≤ n
        → Copied source s t
        → HasAdvanced n (class_loop is_script fuel start_of (i, s) t)
    unfolding class_loop
    class_loop-HasAdvanced n fuel start_of i [] t enough less h = (h, omega arith)
    class_loop-HasAdvanced n zero start_of i (x ∷ s) t enough less h = absurd (omega arith)
    class_loop-HasAdvanced n (suc fuel) start_of i (x ∷ s) t enough less h =
        elim (Bool-cases (x == b']')) [
          | inl e ↦
              let same : x ≡ b']' = ground arith in
              rw e (emit-Copied (codes "]") s t (rw (← same) h), omega arith)
          | inr e ↦ rw e (elim (Bool-cases (doubled x s)) [
            | inl d ↦ rw d (λ c. ground arith)
            | inr d ↦ rw d (elim (Bool-cases (x == b'[')) [
              | inl b ↦ rw b (λ c. ground arith)
              | inr b ↦ rw b (elim (Bool-cases (x == b'\\')) [
                | inl q ↦
                    let same : x ≡ b'\\' = ground arith in
                    let w = escape_width s in
                    rw q (
                      class_step-HasAdvanced n i (i + (1 + w)) (take w s) (drop w s) t
                        (class_loop is_script fuel start_of)
                        (rw (take-append-drop w s) (rw (← same) h))
                        (λ t' h'.
                          class_loop-HasAdvanced n fuel start_of (i + (1 + w)) (drop w s) t'
                            (omega (arith, length-drop-le w s)) (omega (arith, length-drop-le w s))
                            h'))
                | inr q ↦ rw q (
                    class_loop-HasAdvanced n fuel start_of (i + 1) s (emit (x ∷ []) t) (omega arith)
                      (omega arith) (emit-Copied (x ∷ []) s t h))
              ])
            ])
          ])
        ]

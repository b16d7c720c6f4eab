-- ===== src/Regexx/JavaSyntax/Unbounded.antt =====
-- internal/regexx/javasyntax.go: the bound on the output is not looked at within a class.
use mockulus.Prelude.{
  ℕ, zero, suc, ◌+◌, ◌*◌, ◌<◌, ◌≡◌, refl, ap, ◌∙◌, sym, Bool, true, none, [], ◌∷◌, ◌++◌, Text,
  codes, arith, length, length-append,
}
use mathlib.Core.List.{append_assoc}
use mockulus.Regexx.JavaSyntax.Rewrite.{
  Result, ok, err, JavaTranslator, rewrite, Cursor, start, emit,
}
use mockulus.Regexx.JavaSyntax.Scan.{class_loop, next_round, run, chosen, translate_java}

-- A text, a number of times.
abbrev pub times : ℕ → Text → Text
times zero s = []
times (suc n) s = s ++ times n s

abbrev pub space_escape : Text
space_escape = b'\\' ∷ b's' ∷ []

abbrev pub space_ranges : Text
space_ranges = codes "\\x{09}-\\x{0D}\\x{20}"

length-times : (n : ℕ) → length (times n space_ranges) ≡ 19 * n
length-times zero = refl
length-times (suc n) = omega (arith, length-times n)

length-spaces : (n : ℕ) → length (times n space_escape) ≡ n + n
length-spaces zero = refl
length-spaces (suc n) = omega (arith, length-spaces n)

-- What a class that ends the pattern writes.
abbrev HasWritten : Text → Result (Cursor × JavaTranslator) → Type 0
HasWritten w (ok (c, t)) = (c.1 ≡ []) × (t.out ≡ w) × (t.changed ≡ true) × (t.failed ≡ none)
HasWritten w (err p) = ⊥

module _ (is_script : Text → Bool) where
  space_round :
      (fuel start_of i : ℕ) (r : Text) (t : JavaTranslator)
      → class_loop is_script (suc fuel) start_of (i, b'\\' ∷ b's' ∷ r) t
        ≡ class_loop is_script fuel start_of (i + 2, r) (rewrite space_ranges t)
  unfolding class_loop
  space_round fuel start_of i r t = refl

  -- The loop of a class over escapes `\s`.
  class_loop-HasWritten :
      (n fuel start_of i : ℕ) (t : JavaTranslator)
      → n + n < fuel
      → t.changed ≡ true
      → t.failed ≡ none
      → HasWritten
          (t.out ++ (times n space_ranges ++ b']' ∷ []))
          (class_loop is_script fuel start_of (i, times n space_escape ++ b']' ∷ []) t)
  unfolding class_loop
  class_loop-HasWritten n zero start_of i t enough c f = absurd (omega arith)
  class_loop-HasWritten zero (suc fuel) start_of i t enough c f = (refl, refl, c, f)
  class_loop-HasWritten (suc n) (suc fuel) start_of i t enough c f =
      rw
        (
          append_assoc space_ranges (times n space_ranges) (b']' ∷ []),
          sym (append_assoc t.out space_ranges (times n space_ranges ++ b']' ∷ [])),
        )
        (class_loop-HasWritten n fuel start_of (i + 2) (rewrite space_ranges t) (omega arith) refl
          f)

  -- What follows a class that ends the pattern.
  end-chosen :
      (source w : Text) (fuel : ℕ) (r : Result (Cursor × JavaTranslator))
      → HasWritten w r
      → chosen source (next_round (run is_script fuel) r) ≡ ok w
  unfolding run
  end-chosen source w fuel (ok ((i, []), t)) (e, o, c, f) = rw (f, c, o) refl
  end-chosen source w fuel (ok ((i, x ∷ s), t)) (e, o, c, f) = absurd (ground arith)
  end-chosen source w fuel (err p) h = absurd h

  opening_round :
      (fuel : ℕ) (r : Text)
      → run is_script (suc fuel) (0, b'[' ∷ b'\\' ∷ r) start
        ≡ next_round
            (run is_script fuel)
            (class_loop is_script (suc (length r)) 0 (0 + 1, b'\\' ∷ r) (emit (codes "[") start))
  unfolding run
  opening_round fuel r = refl

  -- However many escapes `\s` a class has, from one on, it is accepted, and written out in 19 bytes
  -- for each of them: the output has no bound.
  pub translate_java-unbounded :
      (n : ℕ)
      → (translate_java is_script (b'[' ∷ (times (suc n) space_escape ++ b']' ∷ []))
          ≡ ok (b'[' ∷ (times (suc n) space_ranges ++ b']' ∷ [])))
        × (length (b'[' ∷ (times (suc n) space_ranges ++ b']' ∷ [])) ≡ 19 * suc n + 2)
  unfolding translate_java
  translate_java-unbounded n =
      let body = times n space_escape ++ b']' ∷ [] in
      let opened : JavaTranslator = emit (codes "[") start in
      let fuel = suc (length body) in
      (
        ap (chosen (b'[' ∷ b'\\' ∷ b's' ∷ body)) (opening_round (suc fuel) (b's' ∷ body))
            ∙ end-chosen (b'[' ∷ b'\\' ∷ b's' ∷ body)
                (b'[' ∷ (times (suc n) space_ranges ++ b']' ∷ [])) (suc fuel)
                (class_loop is_script (suc fuel) 0 (0 + 1, b'\\' ∷ b's' ∷ body) opened)
                (rw (space_round fuel 0 (0 + 1) body opened) (
                  class_loop-HasWritten n fuel 0 (0 + 1 + 2) (rewrite space_ranges opened) enough
                    refl refl)),
        size,
      )
    where
      enough : n + n < suc (length (times n space_escape ++ b']' ∷ []))
      enough = omega (arith, length-append (times n space_escape) (b']' ∷ []), length-spaces n)

      size : length (b'[' ∷ (times (suc n) space_ranges ++ b']' ∷ [])) ≡ 19 * suc n + 2
      size =
          omega
            (arith, length-append (times (suc n) space_ranges) (b']' ∷ []), length-times (suc n))

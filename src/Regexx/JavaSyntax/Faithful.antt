-- ===== src/Regexx/JavaSyntax/Faithful.antt =====
-- internal/regexx/javasyntax.go: the two early ways out of `translateJava` give what the pass gives.
use mockulus.Prelude.{
  ℕ, zero, suc, ◌+◌, ◌≤◌, ◌^◌, length-append, ◌≡◌, ◌≢◌, inl, inr, refl, sym, ap, ◌∙◌, Bool, false,
  Option, none, some, List, [], ◌∷◌, ◌++◌, Text, arith, Bool-cases, length, take, drop, ◌==◌, ◌||◌,
  ltb,
}
use mathlib.Core.List.{append-nil}
use mockulus.Prelude.Utf8.{rune_width}
use mockulus.Regexx.JavaSyntax.Escapes.{counted_closure}
use mockulus.Regexx.JavaSyntax.Rewrite.{
  JavaTranslator, start, Cursor, emit, max_translated_bytes, quantifier_suffix, after_paren,
  open_group, close_group, brace, literal, ok, err, unfinished, Result,
}
use mockulus.Regexx.JavaSyntax.Scan.{
  step, next_round, checked, run, scan, chosen, contains_special, translate_java,
}
use mockulus.Regexx.JavaSyntax.Copies.{Copied, HasAdvanced}
use mockulus.Regexx.JavaSyntax.Rounds.{HasRun, run-HasRun, step-HasAdvanced}

-- Nothing was rewritten or refused, and nothing is left that could be.
record IsQuiet (s : Text) (t : JavaTranslator) : Type 0 where
  unchanged : t.changed ≡ false
  clean : t.failed ≡ none
  plain : contains_special s ≡ false

HasStayed : Cursor × JavaTranslator → Type 0
HasStayed (c, t) = IsQuiet c.1 t

tail-plain : (x : ℕ) (s : Text) → contains_special (x ∷ s) ≡ false → contains_special s ≡ false
unfolding contains_special
tail-plain x s h = ground arith

plain_head :
    (x : ℕ) (s : Text)
    → contains_special (x ∷ s) ≡ false
    → ((x == b'\\') ≡ false) × ((x == b'[') ≡ false)
unfolding contains_special
plain_head x s h = (ground arith, ground arith)

drop-plain : (n : ℕ) (s : Text) → contains_special s ≡ false → contains_special (drop n s) ≡ false
drop-plain zero s h = h
drop-plain (suc n) [] h = h
drop-plain (suc n) (x ∷ s) h = drop-plain n s (tail-plain x s h)

-- A state that was quiet stays so with another output, atom or groups.
moved_on :
    (s s' : Text) (t t' : JavaTranslator)
    → IsQuiet s t
    → t'.changed ≡ t.changed
    → t'.failed ≡ t.failed
    → contains_special s' ≡ false
    → IsQuiet s' t'
moved_on s s' t t' q c f p = record { unchanged = c ∙ q.unchanged; clean = f ∙ q.clean; plain = p }

module _ (s : Text) (t : JavaTranslator) (q : IsQuiet s t) where
  quantifier_suffix-HasStayed :
      (i : ℕ) (r : Text) (t' : JavaTranslator)
      → t'.changed ≡ t.changed
      → t'.failed ≡ t.failed
      → contains_special r ≡ false
      → HasStayed (quantifier_suffix (i, r) t')
  unfolding quantifier_suffix HasStayed contains_special
  quantifier_suffix-HasStayed i [] t' c f p = moved_on s [] t _ q c f p
  quantifier_suffix-HasStayed i (x ∷ r) t' c f p = elim (Bool-cases (x == b'+')) [
    | inl e ↦ absurd (ground arith)
    | inr e ↦ rw e (elim (Bool-cases (x == b'?')) [
      | inl k ↦ rw k (moved_on s r t _ q c f (tail-plain x r p))
      | inr k ↦ rw k (moved_on s (x ∷ r) t _ q c f p)
    ])
  ]

  after_paren-HasStayed :
      (i : ℕ) (r : Text)
      → contains_special r ≡ false
      → HasStayed (after_paren (i, r) (open_group t))
  unfolding after_paren open_group HasStayed
  after_paren-HasStayed i [] p = moved_on s [] t _ q refl refl p
  after_paren-HasStayed i (x ∷ r) p = elim (Bool-cases (x == b'?')) [
    | inl k ↦ rw k (moved_on s r t _ q refl refl (tail-plain x r p))
    | inr k ↦ rw k (moved_on s (x ∷ r) t _ q refl refl p)
  ]

  close_group-IsQuiet :
      (gs : List ℕ) (r : Text) → contains_special r ≡ false → IsQuiet r (close_group gs t)
  unfolding close_group
  close_group-IsQuiet [] r p = moved_on s r t _ q refl refl p
  close_group-IsQuiet (g ∷ gs) r p = moved_on s r t _ q refl refl p

  brace-HasStayed :
      (o : Option ℕ) (i : ℕ) (r : Text)
      → contains_special (b'{' ∷ r) ≡ false
      → HasStayed (brace o i r t)
  unfolding brace HasStayed
  brace-HasStayed none i r p = moved_on s r t _ q refl refl (tail-plain b'{' r p)
  brace-HasStayed (some n) i r p =
      quantifier_suffix-HasStayed (i + n) (drop n (b'{' ∷ r)) (emit (take n (b'{' ∷ r)) t) refl refl
        (drop-plain n (b'{' ∷ r) p)

abbrev HasStepped : Result (Cursor × JavaTranslator) → Type 0
HasStepped (ok v) = HasStayed v
HasStepped (err p) = ⊥

module _ (is_script : Text → Bool) where
  step-HasStepped :
      (i x : ℕ) (s : Text) (t : JavaTranslator)
      → IsQuiet (x ∷ s) t
      → HasStepped (step is_script i x s t)
  unfolding step literal HasStayed
  step-HasStepped i x s t q =
      let rest = tail-plain x s q.plain in
      rw ((plain_head x s q.plain).0, (plain_head x s q.plain).1)
        (elim (Bool-cases (x == b'(')) [
          | inl e ↦ rw e (after_paren-HasStayed (x ∷ s) t q (i + 1) s rest)
          | inr e ↦ rw e (elim (Bool-cases (x == b')')) [
            | inl c ↦ rw c (close_group-IsQuiet (x ∷ s) t q t.groups s rest)
            | inr c ↦ rw c (elim (Bool-cases ((x == b'*') || ((x == b'+') || (x == b'?')))) [
              | inl m ↦ rw m (
                  quantifier_suffix-HasStayed (x ∷ s) t q (i + 1) s (emit (x ∷ []) t) refl refl
                    rest)
              | inr m ↦ rw m (elim (Bool-cases (x == b'{')) [
                | inl b ↦
                    let same : x ≡ b'{' = ground arith in
                    rw b (brace-HasStayed (x ∷ s) t q (counted_closure s) i s (rw (← same) q.plain))
                | inr b ↦ rw b (elim (Bool-cases ((x == b'|') || ((x == b'^') || (x == b'$')))) [
                  | inl a ↦ rw a (moved_on (x ∷ s) s t _ q refl refl rest)
                  | inr a ↦ rw a (
                      moved_on (x ∷ s) (drop (rune_width (x ∷ s)) (x ∷ s)) t _ q refl refl
                        (drop-plain (rune_width (x ∷ s)) (x ∷ s) q.plain))
                ])
              ])
            ])
          ])
        ])

  -- What a quiet run gives.
  abbrev HasKept : Result JavaTranslator → Type 0
  HasKept (ok t) = t.changed ≡ false
  HasKept (err p) = ⊥

  checked-HasKept :
      (o : Option ℕ) (t : JavaTranslator) (continue : Result JavaTranslator)
      → o ≡ none
      → length t.out ≤ 2 ^ 20
      → HasKept continue
      → HasKept (checked o t continue)
  unfolding max_translated_bytes
  checked-HasKept (some i) t continue f less h = absurd (ground arith)
  checked-HasKept none t continue f less h = rw over h
    where
      over : ltb (2 ^ 20) (length t.out) ≡ false
      over = ground arith

  written_out :
      (source s : Text) (t : JavaTranslator)
      → Copied source s t
      → t.changed ≡ false
      → t.out ++ s ≡ source
  written_out source s t (inl h) c = absurd (ground arith)
  written_out source s t (inr h) c = h

  out-le :
      (source s : Text) (t : JavaTranslator)
      → Copied source s t
      → t.changed ≡ false
      → length t.out ≤ length source
  out-le source s t h c =
      omega (arith, ap length (written_out source s t h c), length-append t.out s)

  module _ (source : Text) (small : length source ≤ 2 ^ 20) where
    next_round-HasKept :
        (n : ℕ) (r : Result (Cursor × JavaTranslator))
        (continue : Cursor → JavaTranslator → Result JavaTranslator)
        → HasAdvanced source n r
        → HasStepped r
        → ((i : ℕ) (s : Text) (t : JavaTranslator)
            → length s ≤ n
            → Copied source s t
            → IsQuiet s t
            → HasKept (continue (i, s) t))
        → HasKept (next_round continue r)
    unfolding HasStayed
    next_round-HasKept n (ok ((i, s), t)) continue (h, less) q go = go i s t less h q
    next_round-HasKept n (err p) continue h q go = q

    run-HasKept :
        (fuel i : ℕ) (s : Text) (t : JavaTranslator)
        → length s ≤ fuel
        → Copied source s t
        → IsQuiet s t
        → HasKept (run is_script fuel (i, s) t)
    unfolding run
    run-HasKept fuel i [] t enough h q = rw q.clean q.unchanged
    run-HasKept zero i (x ∷ s) t enough h q = absurd (omega arith)
    run-HasKept (suc fuel) i (x ∷ s) t enough h q =
        checked-HasKept t.failed t _ q.clean
          (omega (arith, small, out-le source (x ∷ s) t h q.unchanged))
          (next_round-HasKept (length s) (step is_script i x s t) (run is_script fuel)
            (step-HasAdvanced source is_script i x s t h) (step-HasStepped i x s t q)
            (λ j s' t' less h' q'. run-HasKept fuel j s' t' (omega (arith, less, enough)) h' q'))

  -- What the pass has written, or its refusal.
  abbrev pub output : Result JavaTranslator → Result Text
  output (ok t) = ok t.out
  output (err p) = err p

  chosen-output :
      (source : Text) (r : Result JavaTranslator)
      → HasRun source is_script r
      → chosen source r ≡ output r
  chosen-output source (err p) h = refl
  chosen-output source (ok t) (inl h) = rw h refl
  chosen-output source (ok t) (inr h) = elim (Bool-cases t.changed) [
    | inl e ↦ rw e refl
    | inr e ↦ ground (arith, append-nil t.out)
  ]

  source-output :
      (source : Text) (r : Result JavaTranslator)
      → HasRun source is_script r
      → HasKept r
      → ok source ≡ output r
  source-output source (err p) h k = absurd k
  source-output source (ok t) h k =
      ap ok (sym (sym (append-nil t.out) ∙ written_out source [] t h k))

  -- On a pattern of at most 2 ^ 20 bytes, of whatever bytes, the translation is what a pass over all
  -- of it writes or refuses, so that handing the source back, before the pass or behind it, saves work
  -- and changes nothing; and a round for each byte is enough for the pass.
  pub translate_java-scan :
      (source : Text)
      → length source ≤ 2 ^ 20
      → (translate_java is_script source ≡ output (scan is_script source))
        × (scan is_script source ≢ err unfinished)
  unfolding translate_java
  translate_java-scan source small =
      let whole : HasRun source is_script (scan is_script source) =
        run-HasRun source is_script (length source) 0 source start (omega arith) (inr refl) in
      (
        elim (Bool-cases (contains_special source)) [
          | inl e ↦ rw e (chosen-output source (scan is_script source) whole)
          | inr e ↦ rw e (
              source-output source (scan is_script source) whole (
                run-HasKept source small (length source) 0 source start (omega arith) (inr refl)
                  (record { unchanged = refl; clean = refl; plain = e })))
        ],
        finished (scan is_script source) whole,
      )
    where
      finished : (r : Result JavaTranslator) → HasRun source is_script r → r ≢ err unfinished
      finished (ok t) h c = ground arith
      finished (err p) h c = h (ground arith)

-- ===== src/Matchers/Json/Rounds.antt =====
-- internal/matchers/jsonunit.go: the scan for wide literals ends.
use mockulus.Prelude.{
  ℕ, zero, suc, ◌+◌, ◌≤◌, ◌≡◌, ◌∙◌, refl, Bool, true, false, Option, none, some, [], ◌∷◌,
  if◌then◌else◌, ◌==◌, Text, length, arith,
}
use mockulus.Matchers.Json.Numbers.{
  is_digit, Scan, scan_byte, scan_step, scan_number_literal, skip_string, first_scan, wide_or,
  needs_exact, or_narrow, document_needs_exact_numbers,
}

skip_string-le : (s : Text) → length (skip_string s) ≤ length s
unfolding skip_string
skip_string-le [] = omega arith
skip_string-le (c ∷ []) = omega arith
skip_string-le (c ∷ d ∷ s) = ground (arith, skip_string-le (d ∷ s), skip_string-le s)

scan_step-le :
    (n : ℕ) (here : Bool × Text) (continue : Scan → Bool × Text) (next : Option Scan)
    → length here.1 ≤ n
    → ((scan : Scan) → length (continue scan).1 ≤ n)
    → length (scan_step here continue next).1 ≤ n
scan_step-le n here continue none h k = h
scan_step-le n here continue (some scan) h k = k scan

scan-le : (scan : Scan) (s : Text) → length (scan_number_literal scan s).1 ≤ length s
unfolding scan_number_literal
scan-le scan [] = omega arith
scan-le scan (c ∷ s) =
    scan_step-le (suc (length s)) _ (λ next. scan_number_literal next s) (scan_byte scan c)
      (omega arith) (λ next. omega (arith, scan-le next s))

-- The first digit is taken.
scan-lt :
    (c : ℕ) (s : Text)
    → is_digit c ≡ true
    → length (scan_number_literal first_scan (c ∷ s)).1 ≤ length s
unfolding scan_number_literal scan_byte
scan-lt c s h = rw h (scan-le (record first_scan { digits = 0 + 1; last = c }) s)

wide_or_same :
    (p q : Text → Option Bool) (found : Bool × Text)
    → p found.1 ≡ q found.1
    → wide_or p found ≡ wide_or q found
wide_or_same p q (true, rest) h = refl
wide_or_same p q (false, rest) h = h

by_kind :
    (quote digit : Bool) {p p' q q' r r' : Option Bool}
    → p ≡ p'
    → (digit ≡ true → q ≡ q')
    → r ≡ r'
    → (if quote then p else if digit then q else r)
      ≡ (if quote then p' else if digit then q' else r')
by_kind true digit e f g = e
by_kind false true e f g = f refl
by_kind false false e f g = g

-- With a round for each byte or more the answer does not depend on their number.
same_answer :
    (f g : ℕ) (doc : Text) → length doc ≤ f → length doc ≤ g → needs_exact f doc ≡ needs_exact g doc
unfolding needs_exact
same_answer f g [] h k = refl
same_answer zero g (c ∷ doc) h k = absurd (omega (arith, h))
same_answer (suc f) zero (c ∷ doc) h k = absurd (omega (arith, k))
same_answer (suc f) (suc g) (c ∷ doc) h k =
    let skipped = skip_string-le doc in
    let strings =
      same_answer f g (skip_string doc) (omega (arith, h, skipped)) (omega (arith, k, skipped)) in
    let found = scan_number_literal first_scan (c ∷ doc) in
    by_kind (c == b'"') (is_digit c) strings
      (λ digit.
        let taken = scan-lt c doc digit in
        wide_or_same (needs_exact f) (needs_exact g) found
          (same_answer f g found.1 (omega (arith, h, taken)) (omega (arith, k, taken))))
      (same_answer f g doc (omega (arith, h)) (omega (arith, k)))

abbrev HasAnswer : Option Bool → Type 0
HasAnswer none = ⊥
HasAnswer (some wide) = Unit

kind_answers :
    (quote digit : Bool) (p q r : Option Bool)
    → HasAnswer p
    → (digit ≡ true → HasAnswer q)
    → HasAnswer r
    → HasAnswer (if quote then p else if digit then q else r)
kind_answers true digit p q r e f g = e
kind_answers false true p q r e f g = f refl
kind_answers false false p q r e f g = g

wide_answers :
    (p : Text → Option Bool) (found : Bool × Text)
    → HasAnswer (p found.1)
    → HasAnswer (wide_or p found)
wide_answers p (true, rest) h = tt
wide_answers p (false, rest) h = h

needs_exact-HasAnswer : (f : ℕ) (doc : Text) → length doc ≤ f → HasAnswer (needs_exact f doc)
unfolding needs_exact
needs_exact-HasAnswer f [] h = tt
needs_exact-HasAnswer zero (c ∷ doc) h = absurd (omega (arith, h))
needs_exact-HasAnswer (suc f) (c ∷ doc) h =
    let found = scan_number_literal first_scan (c ∷ doc) in
    kind_answers (c == b'"') (is_digit c) _ _ _
      (needs_exact-HasAnswer f (skip_string doc) (omega (arith, h, skip_string-le doc)))
      (λ digit.
        wide_answers (needs_exact f) found
          (needs_exact-HasAnswer f found.1 (omega (arith, h, scan-lt c doc digit))))
      (needs_exact-HasAnswer f doc (omega (arith, h)))

answered : (o : Option Bool) → HasAnswer o → o ≡ some (or_narrow o)
answered none h = absurd h
answered (some wide) h = refl

-- The scan of a document for literals that a float64 may not hold ends: with a round for each byte,
-- or more rounds, it does not run out of them, and answers what the document's scan answers.
pub needs_exact-rounds :
    (f : ℕ) (doc : Text)
    → length doc ≤ f
    → needs_exact f doc ≡ some (document_needs_exact_numbers doc)
unfolding document_needs_exact_numbers
needs_exact-rounds f doc h =
    same_answer f (length doc) doc h (omega arith)
    ∙ answered (needs_exact (length doc) doc) (needs_exact-HasAnswer (length doc) doc (omega arith))

-- ===== src/Matchers/Pairing/Choice.antt =====
-- internal/matchers/matchers.go: pairings of the elements of two arrays as lists of indices, beside
-- the ways in which the code holds them.
use mockulus.Prelude.{
  ℕ, zero, suc, ◌+◌, ◌≤◌, ◌<◌, ◌≡◌, refl, ap, sym, ◌∙◌, subst, true, false, List, [], ◌∷◌, All,
  length, arith,
}
use mockulus.Matchers.Pairing.Defs.{
  Row, at, row_at, indices, has, candidates_of, is_empty, any_empty,
}
use mockulus.Matchers.Pairing.Finite.{NoRepeat}
use mockulus.Matchers.Pairing.Moves.{has-head, has-tail}
use mockulus.Matchers.Pairing.Complete.{IsChoice}

-- For each expected element the index of an actual one that fits it.
abbrev pub Fits : List Row → List ℕ → Type 0
Fits [] [] = Unit
Fits [] (j ∷ js) = ⊥
Fits (r ∷ rows) [] = ⊥
Fits (r ∷ rows) (j ∷ js) = at r j ≡ true × Fits rows js

-- Each expected element has an actual one of its own that fits it.
abbrev pub Pairable : List Row → Type 0
Pairable rows = (js : List ℕ) × Fits rows js × NoRepeat js

below-indices : (k j : ℕ) (r : Row) → j < k → has j (indices k r) ≡ false
unfolding indices
below-indices k j [] lt = refl
below-indices k j (b ∷ r) lt = ground (arith, below-indices (k + 1) j r (omega (arith, lt)), lt)

-- The candidates of a row are the elements that fit.
has-indices : (k j : ℕ) (r : Row) → has (k + j) (indices k r) ≡ at r j
unfolding indices
has-indices k j [] = refl
has-indices k zero (true ∷ r) = ground arith
has-indices k zero (false ∷ r) = below-indices (k + 1) (k + 0) r (omega arith)
has-indices k (suc j) (true ∷ r) =
    ground
      (arith, subst (λ x. has x (indices (k + 1) r) ≡ at r j) (next k j) (has-indices (k + 1) j r))
  where
    next : (k j : ℕ) → k + 1 + j ≡ k + suc j
    next k j = omega arith
has-indices k (suc j) (false ∷ r) =
    subst (λ x. has x (indices (k + 1) r) ≡ at r j) (next k j) (has-indices (k + 1) j r)
  where
    next : (k j : ℕ) → k + 1 + j ≡ k + suc j
    next k j = omega arith

pub has-candidates :
    (rows : List Row) (i j : ℕ) → has j (candidates_of rows i) ≡ at (row_at rows i) j
has-candidates rows i j =
    subst (λ x. has x (candidates_of rows i) ≡ at (row_at rows i) j) (start j)
      (has-indices 0 j (row_at rows i))
  where
    start : (j : ℕ) → 0 + j ≡ j
    start j = omega arith

indices-bounded : (k n : ℕ) (r : Row) → k + length r ≤ n → All (λ j. j < n) (indices k r)
unfolding indices
indices-bounded k n [] h = tt
indices-bounded k n (true ∷ r) h =
    (omega (arith, h), indices-bounded (k + 1) n r (omega (arith, h)))
indices-bounded k n (false ∷ r) h = indices-bounded (k + 1) n r (omega (arith, h))

-- Rows of one width have candidates below it.
pub candidates-bounded :
    (m : ℕ) (rows : List Row)
    → All (λ r. length r ≡ m) rows
    → (i : ℕ) → All (λ j. j < m) (candidates_of rows i)
candidates-bounded m [] wide i = indices-bounded 0 m [] (omega arith)
candidates-bounded m (r ∷ rows) wide zero = indices-bounded 0 m r (omega (arith, wide.0))
candidates-bounded m (r ∷ rows) wide (suc i) = candidates-bounded m rows wide.1 i

at-width : (r : Row) (j : ℕ) → at r j ≡ true → j < length r
at-width [] j h = ground arith
at-width (b ∷ r) zero h = omega arith
at-width (b ∷ r) (suc j) h = omega (arith, at-width r j h)

pub Fits-bounded :
    (m : ℕ) (rows : List Row) (js : List ℕ)
    → All (λ r. length r ≡ m) rows
    → Fits rows js
    → All (λ j. j < m) js
Fits-bounded m [] [] wide fits = tt
Fits-bounded m [] (j ∷ js) wide fits = elim fits [ ]
Fits-bounded m (r ∷ rows) [] wide fits = elim fits [ ]
Fits-bounded m (r ∷ rows) (j ∷ js) wide fits =
    (omega (arith, at-width r j fits.0, wide.0), Fits-bounded m rows js wide.1 fits.1)

pub Fits-length : (rows : List Row) (js : List ℕ) → Fits rows js → length js ≡ length rows
Fits-length [] [] fits = refl
Fits-length [] (j ∷ js) fits = elim fits [ ]
Fits-length (r ∷ rows) [] fits = elim fits [ ]
Fits-length (r ∷ rows) (j ∷ js) fits = ap suc (Fits-length rows js fits.1)

filled-any_empty : (r : Row) (j : ℕ) (l : List ℕ) → has j l ≡ true → is_empty l ≡ false
filled-any_empty r j [] h = ground arith
filled-any_empty r j (x ∷ l) h = refl

pub Fits-any_empty : (rows : List Row) (js : List ℕ) → Fits rows js → any_empty rows ≡ false
unfolding any_empty
Fits-any_empty [] [] fits = refl
Fits-any_empty [] (j ∷ js) fits = elim fits [ ]
Fits-any_empty (r ∷ rows) [] fits = elim fits [ ]
Fits-any_empty (r ∷ rows) (j ∷ js) fits =
    rw (filled-any_empty r j (indices 0 r) (has-candidates (r ∷ rows) 0 j ∙ fits.0))
      (Fits-any_empty rows js fits.1)

abbrev pub nth : List ℕ → ℕ → ℕ
nth [] i = 0
nth (j ∷ js) zero = j
nth (j ∷ js) (suc i) = nth js i

has-nth : (js : List ℕ) (i : ℕ) → i < length js → has (nth js i) js ≡ true
has-nth [] i lt = absurd (omega (arith, lt))
has-nth (j ∷ js) zero lt = has-head j js
has-nth (j ∷ js) (suc i) lt = has-tail j (nth js i) js (has-nth js i (omega (arith, lt)))

nth_apart :
    (js : List ℕ) (i k : ℕ)
    → NoRepeat js
    → i < length js
    → k < length js
    → nth js i ≡ nth js k
    → i ≡ k
nth_apart [] i k h lt lt' e = absurd (omega (arith, lt))
nth_apart (j ∷ js) zero zero h lt lt' e = refl
nth_apart (j ∷ js) zero (suc k) h lt lt' e =
    ground (arith, h.0, subst (λ x. has x js ≡ true) (sym e) (has-nth js k (omega (arith, lt'))))
nth_apart (j ∷ js) (suc i) zero h lt lt' e =
    ground (arith, h.0, subst (λ x. has x js ≡ true) e (has-nth js i (omega (arith, lt))))
nth_apart (j ∷ js) (suc i) (suc k) h lt lt' e =
    ap suc (nth_apart js i k h.1 (omega (arith, lt)) (omega (arith, lt')) e)

nth-Fits :
    (rows : List Row) (js : List ℕ) (i : ℕ)
    → Fits rows js
    → i < length rows
    → at (row_at rows i) (nth js i) ≡ true
nth-Fits [] [] i fits lt = absurd (omega (arith, lt))
nth-Fits [] (j ∷ js) i fits lt = elim fits [ ]
nth-Fits (r ∷ rows) [] i fits lt = elim fits [ ]
nth-Fits (r ∷ rows) (j ∷ js) zero fits lt = fits.0
nth-Fits (r ∷ rows) (j ∷ js) (suc i) fits lt = nth-Fits rows js i fits.1 (omega (arith, lt))

pub Fits-IsChoice :
    (rows : List Row) (js : List ℕ)
    → Fits rows js
    → NoRepeat js
    → IsChoice (candidates_of rows) (length rows) (nth js)
Fits-IsChoice rows js fits apart = record {
  fits = λ i lt. has-candidates rows i (nth js i) ∙ nth-Fits rows js i fits lt;
  apart =
      λ i k lt lt' e. nth_apart js i k apart (omega (arith, lt, same)) (omega (arith, lt', same)) e;
}
  where
    same : length js ≡ length rows
    same = Fits-length rows js fits

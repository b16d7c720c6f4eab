-- ===== src/Matchers/Json/Rows.antt =====
-- internal/matchers/matchers.go: the outcomes of comparing two arrays element by element, as rows.
use mockulus.Prelude.{
  ℕ, zero, suc, ◌+◌, ◌<◌, ◌≡◌, refl, ap, ◌∙◌, subst, Bool, true, false, List, [], ◌∷◌, All, length,
  arith, &&_iff, inl, inr,
}
use mockulus.Matchers.Pairing.{Row, at, has, array_equal_unordered}
use mockulus.Matchers.Pairing.Finite.{NoRepeat}
use mockulus.Matchers.Pairing.Choice.{Fits}
use mockulus.Matchers.Pairing.Correct.{array_equal_unordered_correct}
use mockulus.Matchers.Json.Defs.{
  Json, Elements, nil, cons, size, row, rows, elements_equal, length_fits, json_equal,
}

row-length : (p : Json → Bool) (actual : Elements) → length (row p actual) ≡ size actual
row-length p nil = refl
row-length p (cons a actual) = omega (arith, row-length p actual)

-- Rows of a second comparison that accepts whatever the first does.
abbrev pub Widens : List Row → List Row → Type 0
Widens [] [] = Unit
Widens [] (r ∷ rs) = ⊥
Widens (r ∷ rs) [] = ⊥
Widens (r ∷ rs) (s ∷ ss) = ((j : ℕ) → at r j ≡ true → at s j ≡ true) × Widens rs ss

pub row_widens :
    (p q : Json → Bool) (actual : Elements)
    → ((a : Json) → p a ≡ true → q a ≡ true)
    → (j : ℕ) → at (row p actual) j ≡ true
    → at (row q actual) j ≡ true
row_widens p q nil h j e = e
row_widens p q (cons a actual) h zero e = h a e
row_widens p q (cons a actual) h (suc j) e = row_widens p q actual h j e

Fits-Widens : (rs ss : List Row) (js : List ℕ) → Widens rs ss → Fits rs js → Fits ss js
Fits-Widens [] [] [] w fits = tt
Fits-Widens [] [] (j ∷ js) w fits = fits
Fits-Widens [] (s ∷ ss) js w fits = elim w [ ]
Fits-Widens (r ∷ rs) [] js w fits = elim w [ ]
Fits-Widens (r ∷ rs) (s ∷ ss) [] w fits = fits
Fits-Widens (r ∷ rs) (s ∷ ss) (j ∷ js) w fits = (w.0 j fits.0, Fits-Widens rs ss js w.1 fits.1)

Widens-length : (rs ss : List Row) → Widens rs ss → length rs ≡ length ss
Widens-length [] [] w = refl
Widens-length [] (s ∷ ss) w = elim w [ ]
Widens-length (r ∷ rs) [] w = elim w [ ]
Widens-length (r ∷ rs) (s ∷ ss) w = ap suc (Widens-length rs ss w.1)

pub unordered-Widens :
    (rs ss : List Row) (m : ℕ) (x x' : Bool)
    → All (λ r. length r ≡ m) rs
    → All (λ r. length r ≡ m) ss
    → Widens rs ss
    → (x ≡ true → x' ≡ true)
    → array_equal_unordered rs m x ≡ true
    → array_equal_unordered ss m x' ≡ true
unordered-Widens rs ss m x x' wide wide' w more h =
    let ((js, fits, apart), same) = (array_equal_unordered_correct rs m x wide).0 h in
    (array_equal_unordered_correct ss m x' wide').1 (
      (js, Fits-Widens rs ss js w fits, apart),
      elim same [ inl e ↦ inl (more e) | inr e ↦ inr (e ∙ Widens-length rs ss w) ],
    )

-- The indices from one on.
abbrev count_up : ℕ → ℕ → List ℕ
count_up k zero = []
count_up k (suc n) = k ∷ count_up (k + 1) n

below-count_up : (j k n : ℕ) → j < k → has j (count_up k n) ≡ false
below-count_up j k zero lt = refl
below-count_up j k (suc n) lt = ground (arith, lt, below-count_up j (k + 1) n (omega (arith, lt)))

count_up-NoRepeat : (k n : ℕ) → NoRepeat (count_up k n)
count_up-NoRepeat k zero = tt
count_up-NoRepeat k (suc n) =
    (below-count_up k (k + 1) n (omega arith), count_up-NoRepeat (k + 1) n)

abbrev rest_from : ℕ → Elements → Elements
rest_from zero actual = actual
rest_from (suc k) nil = nil
rest_from (suc k) (cons a actual) = rest_from k actual

rest_from-at :
    (p : Json → Bool) (full : Elements) (k : ℕ) (a : Json) (actual : Elements)
    → rest_from k full ≡ cons a actual
    → (at (row p full) k ≡ p a) × (rest_from (k + 1) full ≡ actual)
rest_from-at p nil zero a actual e = ground (arith, e)
rest_from-at p nil (suc k) a actual e = ground (arith, e)
rest_from-at p (cons b full) zero a actual e = ground (arith, e)
rest_from-at p (cons b full) (suc k) a actual e =
    let (here, there) = rest_from-at p full k a actual e in
    (here, subst (λ n. rest_from n (cons b full) ≡ actual) (next k) there)
  where
    next : (k : ℕ) → suc (k + 1) ≡ suc k + 1
    next k = omega arith

module _ (o x : Bool) where
  pub rows-width : (es actual : Elements) → All (λ r. length r ≡ size actual) (rows o x es actual)
  unfolding rows
  rows-width nil actual = tt
  rows-width (cons e es) actual = (row-length (json_equal o x e) actual, rows-width es actual)

  rows-length : (es actual : Elements) → length (rows o x es actual) ≡ size es
  unfolding rows
  rows-length nil actual = refl
  rows-length (cons e es) actual = omega (arith, rows-length es actual)

  -- Elements that are equal in their order fit in their order.
  ordered_fits :
      (es actual full : Elements) (k : ℕ)
      → rest_from k full ≡ actual
      → elements_equal o x es actual ≡ true
      → Fits (rows o x es full) (count_up k (size es))
  unfolding elements_equal
  ordered_fits nil actual full k e h = tt
  ordered_fits (cons v es) nil full k e h = ground (arith, h)
  ordered_fits (cons v es) (cons a actual) full k e h =
      subst (λ n. Fits (rows o x (cons v es) full) (count_up k n)) (next (size es))
        (let (here, there) = rest_from-at (json_equal o x v) full k a actual e in
          let (first, others) = (&&_iff (json_equal o x v a) (elements_equal o x es actual)).0 h in
          (here ∙ first, ordered_fits es actual full (k + 1) there others))
    where
      next : (n : ℕ) → suc n ≡ n + 1
      next n = omega arith

  pub ordered_unordered :
      (es actual : Elements) (x' : Bool)
      → length_fits x' (size es) (size actual) ≡ true
      → (x' ≡ true → x ≡ true)
      → elements_equal o x es actual ≡ true
      → array_equal_unordered (rows o x es actual) (size actual) x ≡ true
  unfolding length_fits
  ordered_unordered es actual x' fit more h =
      (array_equal_unordered_correct (rows o x es actual) (size actual) x (rows-width es actual)).1
        (
          (
            count_up 0 (size es),
            ordered_fits es actual actual 0 refl h,
            count_up-NoRepeat 0 (size es),
          ),
          ground (arith, fit, more, rows-length es actual),
        )

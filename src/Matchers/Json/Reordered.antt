-- ===== src/Matchers/Json/Reordered.antt =====
-- internal/matchers/matchers.go: `ignoreArrayOrder`.
use mockulus.Prelude.{
  ℕ, zero, suc, ◌≡◌, refl, ap, sym, ◌∙◌, Bool, true, List, [], ◌∷◌, map, length, arith, Bool-cases,
  inl, inr,
}
use mockulus.Matchers.Pairing.{at}
use mockulus.Matchers.Pairing.Complete.{map-NoRepeat}
use mockulus.Matchers.Pairing.Choice.{Fits}
use mockulus.Matchers.Pairing.Correct.{array_equal_unordered_correct}
use mockulus.Matchers.Json.Defs.{Json, array, Elements, nil, cons, size, row, rows, json_equal}
use mockulus.Matchers.Json.Rows.{rows-width}

-- The second array holds the elements of the first in another order.
pub data Reordered : Elements → Elements → Type 0 where
  same : (xs : Elements) → Reordered xs xs
  swap : (a b : Json) (xs : Elements) → Reordered (cons a (cons b xs)) (cons b (cons a xs))
  keep : (a : Json) {xs ys : Elements} → Reordered xs ys → Reordered (cons a xs) (cons a ys)
  chain : {xs ys zs : Elements} → Reordered xs ys → Reordered ys zs → Reordered xs zs

back : {xs ys : Elements} → Reordered xs ys → Reordered ys xs
back (same xs) = same xs
back (swap a b xs) = swap b a xs
back (keep a r) = keep a (back r)
back (chain r s) = chain (back s) (back r)

size-Reordered : {xs ys : Elements} → Reordered xs ys → size xs ≡ size ys
size-Reordered (same xs) = refl
size-Reordered (swap a b xs) = refl
size-Reordered (keep a r) = omega (arith, size-Reordered r)
size-Reordered (chain r s) = size-Reordered r ∙ size-Reordered s

-- Where an element goes.
place : {xs ys : Elements} → Reordered xs ys → ℕ → ℕ
place (same xs) j = j
place (swap a b xs) zero = 1
place (swap a b xs) (suc zero) = 0
place (swap a b xs) (suc (suc j)) = suc (suc j)
place (keep a r) zero = 0
place (keep a r) (suc j) = suc (place r j)
place (chain r s) j = place s (place r j)

place_inj : {xs ys : Elements} (r : Reordered xs ys) (i j : ℕ) → place r i ≡ place r j → i ≡ j
unfolding place
place_inj (same xs) i j e = e
place_inj (swap a b xs) zero zero e = refl
place_inj (swap a b xs) zero (suc zero) e = ground arith
place_inj (swap a b xs) zero (suc (suc j)) e = ground arith
place_inj (swap a b xs) (suc zero) zero e = ground arith
place_inj (swap a b xs) (suc zero) (suc zero) e = refl
place_inj (swap a b xs) (suc zero) (suc (suc j)) e = ground arith
place_inj (swap a b xs) (suc (suc i)) zero e = ground arith
place_inj (swap a b xs) (suc (suc i)) (suc zero) e = ground arith
place_inj (swap a b xs) (suc (suc i)) (suc (suc j)) e = e
place_inj (keep a r) zero zero e = refl
place_inj (keep a r) zero (suc j) e = ground arith
place_inj (keep a r) (suc i) zero e = ground arith
place_inj (keep a r) (suc i) (suc j) e = ap suc (place_inj r i j (omega (arith, e)))
place_inj (chain r s) i j e = place_inj r i j (place_inj s (place r i) (place r j) e)

at-place :
    (p : Json → Bool) {xs ys : Elements} (r : Reordered xs ys) (j : ℕ)
    → at (row p xs) j ≡ true
    → at (row p ys) (place r j) ≡ true
unfolding place
at-place p (same xs) j h = h
at-place p (swap a b xs) zero h = h
at-place p (swap a b xs) (suc zero) h = h
at-place p (swap a b xs) (suc (suc j)) h = h
at-place p (keep a r) zero h = h
at-place p (keep a r) (suc j) h = at-place p r j h
at-place p (chain r s) j h = at-place p s (place r j) (at-place p r j h)

module _ (x : Bool) where
  Fits-place :
      (es : Elements) {xs ys : Elements} (r : Reordered xs ys) (js : List ℕ)
      → Fits (rows true x es xs) js
      → Fits (rows true x es ys) (map (place r) js)
  unfolding rows
  Fits-place nil r [] fits = tt
  Fits-place nil r (j ∷ js) fits = elim fits [ ]
  Fits-place (cons e es) r [] fits = elim fits [ ]
  Fits-place (cons e es) r (j ∷ js) fits =
      (at-place (json_equal true x e) r j fits.0, Fits-place es r js fits.1)

  rows-length_same : (es xs ys : Elements) → length (rows true x es xs) ≡ length (rows true x es ys)
  unfolding rows
  rows-length_same nil xs ys = refl
  rows-length_same (cons e es) xs ys = ap suc (rows-length_same es xs ys)

  reordered_true :
      (es : Elements) {xs ys : Elements}
      → Reordered xs ys
      → json_equal true x (array es) (array xs) ≡ true
      → json_equal true x (array es) (array ys) ≡ true
  unfolding json_equal
  reordered_true es {xs} {ys} r h =
      let ((js, fits, apart), counts) =
        (array_equal_unordered_correct (rows true x es xs) (size xs) x (rows-width true x es xs)).0
          h in
      (array_equal_unordered_correct (rows true x es ys) (size ys) x (rows-width true x es ys)).1 (
        (
          map (place r) js,
          Fits-place es r js fits,
          map-NoRepeat (place r) js apart (λ i j p q. place_inj r i j),
        ),
        elim counts [
          | inl e ↦ inl e
          | inr e ↦ inr (sym (size-Reordered r) ∙ e ∙ rows-length_same es xs ys)
        ],
      )

-- With `ignoreArrayOrder` the answer on an array is that on any reordering of it.
pub json_equal-reordered :
    (x : Bool) (es : Elements) {xs ys : Elements}
    → Reordered xs ys
    → json_equal true x (array es) (array xs) ≡ json_equal true x (array es) (array ys)
json_equal-reordered x es {xs} {ys} r =
    elim (Bool-cases (json_equal true x (array es) (array xs))) [
      | inl e ↦ e ∙ sym (reordered_true x es r e)
      | inr e ↦ elim (Bool-cases (json_equal true x (array es) (array ys))) [
        | inl f ↦ reordered_true x es (back r) f ∙ sym f
        | inr f ↦ e ∙ sym f
      ]
    ]

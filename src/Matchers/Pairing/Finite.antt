-- ===== src/Matchers/Pairing/Finite.antt =====
-- Lists of numbers without repetition, and the pigeonhole principle.
use mockulus.Prelude.{
  ℕ, zero, suc, ◌+◌, ◌≤◌, ◌<◌, ◌≡◌, ◌≢◌, refl, true, false, List, [], ◌∷◌, if◌then◌else◌, ◌==◌,
  length, All, arith,
}
use mockulus.Matchers.Pairing.Defs.{has}

-- No number stands in the list twice.
abbrev pub NoRepeat : List ℕ → Type 0
NoRepeat [] = Unit
NoRepeat (x ∷ l) = (has x l ≡ false) × NoRepeat l

abbrev remove : ℕ → List ℕ → List ℕ
remove x [] = []
remove x (y ∷ l) = let rest = remove x l in if y == x then l else y ∷ rest

remove-length : (x : ℕ) (l : List ℕ) → has x l ≡ true → length l ≡ length (remove x l) + 1
remove-length x [] h = ground arith
remove-length x (y ∷ l) h = ground (arith, remove-length x l)

remove-has : (x z : ℕ) (l : List ℕ) → has z l ≡ true → z ≢ x → has z (remove x l) ≡ true
remove-has x z [] h ne = h
remove-has x z (y ∷ l) h ne = ground (arith, remove-has x z l)

-- All elements of the first list stand in the second.
abbrev pub IsWithin : List ℕ → List ℕ → Type 0
IsWithin l m = All (λ x. has x m ≡ true) l

IsWithin-remove : (x : ℕ) (l m : List ℕ) → has x l ≡ false → IsWithin l m → IsWithin l (remove x m)
IsWithin-remove x [] m h k = tt
IsWithin-remove x (y ∷ l) m h k =
    (remove-has x y m k.0 (ground arith), IsWithin-remove x l m (ground arith) k.1)

-- The pigeonhole principle.
pub within-length : (l m : List ℕ) → NoRepeat l → IsWithin l m → length l ≤ length m
within-length [] m h k = omega arith
within-length (x ∷ l) m h k =
    omega (
      arith,
      remove-length x m k.0,
      within-length l (remove x m) h.1 (IsWithin-remove x l m h.0 k.1),
    )

abbrev pub below : ℕ → List ℕ
below zero = []
below (suc n) = n ∷ below n

pub has-below : (n x : ℕ) → x < n → has x (below n) ≡ true
has-below zero x h = ground arith
has-below (suc n) x h = ground (arith, has-below n x)

length-below : (n : ℕ) → length (below n) ≡ n
length-below zero = refl
length-below (suc n) = omega (arith, length-below n)

IsWithin-below : (n : ℕ) (l : List ℕ) → All (λ x. x < n) l → IsWithin l (below n)
IsWithin-below n [] h = tt
IsWithin-below n (x ∷ l) h = (has-below n x h.0, IsWithin-below n l h.1)

-- Numbers below a bound without repetition are at most as many.
pub bounded-length : (n : ℕ) (l : List ℕ) → NoRepeat l → All (λ x. x < n) l → length l ≤ n
bounded-length n l h k =
    omega (arith, length-below n, within-length l (below n) h (IsWithin-below n l k))

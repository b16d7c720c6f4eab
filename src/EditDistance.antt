-- ===== src/EditDistance.antt =====
-- internal/wmcompat/nearmiss.go: `editDistance`, which ranks near misses.
use mockulus.Prelude.{
  ℕ, ◌+◌, ◌≡◌, refl, ap, ap₂, ◌∙◌, List, [], ◌∷◌, Text, if◌then◌else◌, ltb, ◌==◌, length, arith,
}

unfoldable pub min3 : ℕ → ℕ → ℕ → ℕ
min3 a b c = let m = if ltb b a then b else a in if ltb c m then c else m

abbrev cost : ℕ → ℕ → ℕ
cost x y = if x == y then 0 else 1

-- The inner loop, from the entry `left` of the new row on, with the row before from the same place.
unfoldable pub fill_row : ℕ → ℕ → List ℕ → Text → List ℕ
unfolding min3
fill_row x left (diagonal ∷ above ∷ prev) (y ∷ b) =
    left ∷ fill_row x (min3 (left + 1) (above + 1) (diagonal + cost x y)) (above ∷ prev) b
fill_row x left prev b = left ∷ []

-- The outer loop, by the number of rows done.
unfoldable pub fill_rows : ℕ → Text → List ℕ → Text → List ℕ
unfolding fill_row
fill_rows i [] prev b = prev
fill_rows i (x ∷ a) prev b = fill_rows (i + 1) a (fill_row x (i + 1) prev b) b

-- `prev[j] = j`
unfoldable pub first_row : ℕ → Text → List ℕ
first_row j [] = j ∷ []
first_row j (y ∷ b) = j ∷ first_row (j + 1) b

abbrev last_entry : List ℕ → ℕ
last_entry [] = 0
last_entry (d ∷ []) = d
last_entry (d ∷ e ∷ row) = last_entry (e ∷ row)

unfoldable pub edit_distance : Text → Text → ℕ
unfolding fill_rows first_row
edit_distance a b = last_entry (fill_rows 0 a (first_row 0 b) b)

-- The fewest insertions, deletions and substitutions, by the last step, of texts that are given
-- from their ends.
unfoldable pub distance : Text → Text → ℕ
unfolding min3
distance [] b = length b
distance (x ∷ a) [] = length a + 1
distance (x ∷ a) (y ∷ b) =
    min3 (distance (x ∷ a) b + 1) (distance a (y ∷ b) + 1) (distance a b + cost x y)

abbrev pub onto : Text → Text → Text
onto [] done = done
onto (x ∷ a) done = onto a (x ∷ done)

-- The distances of a text to the prefixes of another, from a prefix on.
unfoldable pub row_of : Text → Text → Text → List ℕ
unfolding distance
row_of a done [] = distance a done ∷ []
row_of a done (y ∷ b) = distance a done ∷ row_of a (y ∷ done) b

fill_row-row_of :
    (x : ℕ) (a done b : Text)
    → fill_row x (distance (x ∷ a) done) (row_of a done b) b ≡ row_of (x ∷ a) done b
unfolding fill_row row_of
fill_row-row_of x a done [] = refl
fill_row-row_of x a done (y ∷ []) = refl
fill_row-row_of x a done (y ∷ z ∷ b) =
    ap (λ l. distance (x ∷ a) done ∷ l) (fill_row-row_of x a (y ∷ done) (z ∷ b))

longer : (done : Text) (y : ℕ) → length done + 1 ≡ length (y ∷ done)
longer done y = omega arith

first_row-row_of : (done b : Text) → first_row (length done) b ≡ row_of [] done b
unfolding first_row row_of
first_row-row_of done [] = refl
first_row-row_of done (y ∷ b) =
    ap (λ l. length done ∷ l)
      (ap (λ n. first_row n b) (longer done y) ∙ first_row-row_of (y ∷ done) b)

fill_rows-row_of :
    (a done b : Text) → fill_rows (length done) a (row_of done [] b) b ≡ row_of (onto a done) [] b
unfolding fill_rows distance
fill_rows-row_of [] done b = refl
fill_rows-row_of (x ∷ a) done b =
    ap₂ (λ n row. fill_rows n a row b) (longer done x) (fill_row-row_of x done [] b)
    ∙ fill_rows-row_of a (x ∷ done) b

last-row_of : (a done b : Text) → last_entry (row_of a done b) ≡ distance a (onto b done)
unfolding row_of
last-row_of a done [] = refl
last-row_of a done (y ∷ []) = refl
last-row_of a done (y ∷ z ∷ b) = last-row_of a (y ∷ done) (z ∷ b)

-- The two rows of the loop compute the edit distance of the recursion on both texts.
pub edit_distance-distance : (a b : Text) → edit_distance a b ≡ distance (onto a []) (onto b [])
unfolding edit_distance
edit_distance-distance a b =
    ap (λ row. last_entry (fill_rows 0 a row b)) (first_row-row_of [] b)
    ∙ ap last_entry (fill_rows-row_of a [] b)
    ∙ last-row_of (onto a []) [] b

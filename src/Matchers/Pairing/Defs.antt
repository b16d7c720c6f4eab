-- ===== src/Matchers/Pairing/Defs.antt =====
-- internal/matchers/matchers.go: `arrayEqualUnordered`, `arrayMatchable` and `augmentPairing`, over
-- the results of the comparisons: a row for each expected element, with a test for each actual one.
-- Those are pure, so it does not show that the code makes some of them only when it needs them.
use mockulus.Prelude.{
  ℕ, zero, suc, ◌+◌, Bool, true, false, not, ◌&&◌, ◌||◌, Option, none, some, List, [], ◌∷◌,
  if◌then◌else◌, ltb, ◌==◌, length,
}

abbrev pub Row : Type 0
Row = List Bool

-- Whether the expected element of a row may be paired with the actual one at an index.
abbrev pub at : Row → ℕ → Bool
at [] j = false
at (b ∷ r) zero = b
at (b ∷ r) (suc j) = at r j

abbrev pub row_at : List Row → ℕ → Row
row_at [] i = []
row_at (r ∷ rows) zero = r
row_at (r ∷ rows) (suc i) = row_at rows i

abbrev pub prepend : Bool → Option (List Bool) → Option (List Bool)
prepend u none = none
prepend u (some used) = some (u ∷ used)

-- The inner loop of the greedy scan: the first unused actual element that fits becomes used.
unfoldable pub claim : Row → List Bool → Option (List Bool)
claim [] used = none
claim (b ∷ r) [] = none
claim (b ∷ r) (u ∷ used) =
    let rest = prepend u (claim r used) in if b && not u then some (true ∷ used) else rest

unfoldable pub greedy : List Row → List Bool → Bool
unfolding claim
greedy [] used = true
greedy (r ∷ rows) used = elim (claim r used) [ none ↦ false | some used' ↦ greedy rows used' ]

-- The indices that a row of candidates holds.
unfoldable pub indices : ℕ → Row → List ℕ
indices j [] = []
indices j (b ∷ r) = let rest = indices (j + 1) r in if b then j ∷ rest else rest

-- `pairedWith`: for an actual element, the expected one that it answers; `none` is -1.
abbrev pub Paired : Type 0
Paired = ℕ → Option ℕ

abbrev pub set : Paired → ℕ → ℕ → Paired
set paired j i = λ k. if j == k then some i else paired k

abbrev pub has : ℕ → List ℕ → Bool
has j [] = false
has j (k ∷ visited) = (k == j) || has j visited

-- What a search returns: the new pairing if it has found a path, and the elements visited.
abbrev pub Found : Type 0
Found = Option Paired × List ℕ

-- After the search from the element that a candidate is paired with.
abbrev pub after_search : ℕ → ℕ → (List ℕ → Found) → Found → Found
after_search i j continue (some paired, visited) = (some (set paired j i), visited)
after_search i j continue (none, visited) = continue visited

-- A candidate that is not visited: it is free, or what it is paired with may find another.
abbrev pub repair :
    (ℕ → List ℕ → Paired → Found) → ℕ → ℕ → (List ℕ → Found) → List ℕ → Paired → Option ℕ → Found
repair again i j continue visited paired none = (some (set paired j i), visited)
repair again i j continue visited paired (some i') =
    after_search i j continue (again i' visited paired)

-- The loop of `augmentPairing` over the candidates left, `again` being its recursive call.
unfoldable pub try_each : (ℕ → List ℕ → Paired → Found) → ℕ → List ℕ → List ℕ → Paired → Found
try_each again i [] visited paired = (none, visited)
try_each again i (j ∷ js) visited paired =
    let skip = try_each again i js visited paired in
    let use_it =
      repair again i j (λ seen. try_each again i js seen paired) (j ∷ visited) paired (paired j) in
    if has j visited then skip else use_it

module _ (candidates : ℕ → List ℕ) where
  -- `augmentPairing`, by the depth of recursion left.
  unfoldable pub augment : ℕ → ℕ → List ℕ → Paired → Found
  unfolding try_each
  augment zero i visited paired = (none, visited)
  augment (suc fuel) i visited paired = try_each (augment fuel) i (candidates i) visited paired

  abbrev pub next_pair : (Paired → Bool) → Found → Bool
  next_pair continue (some paired, visited) = continue paired
  next_pair continue (none, visited) = false

  -- The loop over the expected elements from one on, `visited` being cleared for each.
  unfoldable pub pair_all : ℕ → ℕ → ℕ → Paired → Bool
  pair_all fuel i zero paired = true
  pair_all fuel i (suc n) paired = next_pair (pair_all fuel (i + 1) n) (augment fuel i [] paired)

abbrev pub candidates_of : List Row → ℕ → List ℕ
candidates_of rows i = indices 0 (row_at rows i)

abbrev pub is_empty : List ℕ → Bool
is_empty [] = true
is_empty (j ∷ js) = false

unfoldable pub any_empty : List Row → Bool
any_empty [] = false
any_empty (r ∷ rows) = is_empty (indices 0 r) || any_empty rows

-- `arrayMatchable`, by the number of actual elements. A path visits each of those once at most,
-- which bounds the depth of the recursion.
unfoldable pub array_matchable : List Row → ℕ → Bool
unfolding any_empty pair_all
array_matchable rows m =
    not (any_empty rows) && pair_all (candidates_of rows) (m + 1) 0 (length rows) (λ j. none)

abbrev pub falses : ℕ → List Bool
falses zero = []
falses (suc m) = false ∷ falses m

-- `arrayEqualUnordered`
unfoldable pub array_equal_unordered : List Row → ℕ → Bool → Bool
unfolding greedy array_matchable
array_equal_unordered rows m ignore_extra =
    if ltb m (length rows) || (not ignore_extra && not (m == length rows))
    then false
    else greedy rows (falses m) || array_matchable rows m

-- ===== src/Matchers/Pairing/Correct.antt =====
-- internal/matchers/matchers.go: `arrayEqualUnordered` decides whether there is a pairing.
use mockulus.Prelude.{
  ℕ, zero, suc, ◌+◌, ◌≤◌, ◌<◌, ◌≡◌, ◌⊎◌, ◌↔◌, refl, ap, sym, ◌∙◌, subst, Bool, true, false, Option,
  none, some, List, [], ◌∷◌, All, length, arith, Bool-cases, inl, inr,
}
use mockulus.Matchers.Pairing.Defs.{
  Row, at, row_at, claim, prepend, greedy, Paired, has, candidates_of, array_matchable, falses,
  array_equal_unordered,
}
use mockulus.Matchers.Pairing.Finite.{NoRepeat, bounded-length}
use mockulus.Matchers.Pairing.Moves.{some_inj, ℕ-cases}
use mockulus.Matchers.Pairing.Complete.{IsChoice, start-IsRound, pair_all-true, pair_all-IsRound}
use mockulus.Matchers.Pairing.Choice.{
  Fits, Pairable, nth, has-candidates, candidates-bounded, Fits-bounded, Fits-length,
  Fits-any_empty, Fits-IsChoice,
}

-- What a step of the greedy scan has used.
record IsClaim (r : Row) (used used' : List Bool) (j : ℕ) : Type 0 where
  fits : at r j ≡ true
  fresh : at used j ≡ false
  taken : at used' j ≡ true
  kept : (x : ℕ) → at used' x ≡ false → at used x ≡ false

prepend-some :
    (u : Bool) (t : Option (List Bool)) (used' : List Bool)
    → prepend u t ≡ some used'
    → (rest : List Bool) × t ≡ some rest × used' ≡ u ∷ rest
prepend-some u none used' h = ground arith
prepend-some u (some rest) used' h = (rest, refl, ground arith)

-- The step of a longer row that passes its head by.
later :
    (b u : Bool) (r : Row) (used rest used' : List Bool)
    → used' ≡ u ∷ rest
    → (j : ℕ) × IsClaim r used rest j
    → (j : ℕ) × IsClaim (b ∷ r) (u ∷ used) used' j
later b u r used rest used' same (j, step) =
    subst (λ l. (j : ℕ) × IsClaim (b ∷ r) (u ∷ used) l j) (sym same)
      (suc j, record { fits = step.fits; fresh = step.fresh; taken = step.taken; kept = kept })
  where
    kept : (x : ℕ) → at (u ∷ rest) x ≡ false → at (u ∷ used) x ≡ false
    kept zero h = h
    kept (suc x) h = step.kept x h

claim-IsClaim :
    (r : Row) (used used' : List Bool)
    → claim r used ≡ some used'
    → (j : ℕ) × IsClaim r used used' j
unfolding claim
claim-IsClaim [] used used' h = ground arith
claim-IsClaim (b ∷ r) [] used' h = ground arith
claim-IsClaim (true ∷ r) (false ∷ used) used' h =
    subst (λ l. (j : ℕ) × IsClaim (true ∷ r) (false ∷ used) l j) {x = true ∷ used} (ground arith)
      (0, record { fits = refl; fresh = refl; taken = refl; kept = head_kept })
  where
    head_kept : (x : ℕ) → at (true ∷ used) x ≡ false → at (false ∷ used) x ≡ false
    head_kept zero h' = refl
    head_kept (suc x) h' = h'
claim-IsClaim (true ∷ r) (true ∷ used) used' h =
    let (rest, e, same) = prepend-some true (claim r used) used' h in
    later true true r used rest used' same (claim-IsClaim r used rest e)
claim-IsClaim (false ∷ r) (u ∷ used) used' h =
    let (rest, e, same) = prepend-some u (claim r used) used' h in
    later false u r used rest used' same (claim-IsClaim r used rest e)

abbrev Fresh : List Bool → List ℕ → Type 0
Fresh used js = All (λ j. at used j ≡ false) js

Fresh-has :
    (used : List Bool) (j : ℕ) (js : List ℕ) → at used j ≡ true → Fresh used js → has j js ≡ false
Fresh-has used j [] h fresh = refl
Fresh-has used j (k ∷ js) h fresh = elim (ℕ-cases k j) [
  | inl e ↦ ground (arith, h, fresh.0, ap (at used) e)
  | inr ne ↦ ground (arith, ne, Fresh-has used j js h fresh.1)
]

Fresh-kept :
    (used used' : List Bool) (js : List ℕ)
    → ((x : ℕ) → at used' x ≡ false → at used x ≡ false)
    → Fresh used' js
    → Fresh used js
Fresh-kept used used' [] kept fresh = tt
Fresh-kept used used' (j ∷ js) kept fresh = (kept j fresh.0, Fresh-kept used used' js kept fresh.1)

Option-step :
    (t : Option (List Bool)) (f : List Bool → Bool)
    → (elim t [ none ↦ false | some used ↦ f used ]) ≡ true
    → (used : List Bool) × t ≡ some used × f used ≡ true
Option-step none f h = ground arith
Option-step (some used) f h = (used, refl, h)

-- Where the greedy scan goes through it has a pairing.
greedy-Pairable :
    (rows : List Row) (used : List Bool)
    → greedy rows used ≡ true
    → (js : List ℕ) × Fits rows js × NoRepeat js × Fresh used js
unfolding greedy
greedy-Pairable [] used h = ([], tt, tt, tt)
greedy-Pairable (r ∷ rows) used h =
    let (used', e, rest) = Option-step (claim r used) (greedy rows) h in
    let (js, fits, apart, fresh) = greedy-Pairable rows used' rest in
    let (j, step) = claim-IsClaim r used used' e in
    (
      j ∷ js,
      (step.fits, fits),
      (Fresh-has used' j js step.taken fresh, apart),
      (step.fresh, Fresh-kept used used' js step.kept fresh),
    )

-- The elements answer expected ones from one on.
abbrev OwnedFrom : Paired → ℕ → List ℕ → Type 0
OwnedFrom Q k js = All (λ j. (i : ℕ) × Q j ≡ some i × k ≤ i) js

owned-has :
    (Q : Paired) (k j : ℕ) (js : List ℕ) → Q j ≡ some k → OwnedFrom Q (k + 1) js → has j js ≡ false
owned-has Q k j [] h owned = refl
owned-has Q k j (x ∷ js) h owned = elim (ℕ-cases x j) [
  | inl e ↦
      let (i, at_x, le) = owned.0 in absurd (omega (arith, some_inj (sym at_x ∙ ap Q e ∙ h), le))
  | inr ne ↦ ground (arith, ne, owned-has Q k j js h owned.1)
]

owned-weaken : (Q : Paired) (k : ℕ) (js : List ℕ) → OwnedFrom Q (k + 1) js → OwnedFrom Q k js
owned-weaken Q k [] owned = tt
owned-weaken Q k (j ∷ js) owned =
    ((owned.0.0, owned.0.1, omega (arith, owned.0.2)), owned-weaken Q k js owned.1)

-- A pairing by owner, read off in the order of the expected elements.
collect :
    (Q : Paired) (k : ℕ) (rows : List Row)
    → ((i : ℕ) → i < length rows → (j : ℕ) × Q j ≡ some (k + i) × at (row_at rows i) j ≡ true)
    → (js : List ℕ) × Fits rows js × NoRepeat js × OwnedFrom Q k js
collect Q k [] find = ([], tt, tt, tt)
collect Q k (r ∷ rows) find =
    let (j, at_j, fit) = find 0 (omega arith) in
    let here = at_j ∙ ap some (start k) in
    let (js, fits, apart, owned) = collect Q (k + 1) rows (λ i lt.
      let (j', at', fit') = find (suc i) (omega (arith, lt)) in
      (j', at' ∙ ap some (next k i), fit')) in
    (
      j ∷ js,
      (fit, fits),
      (owned-has Q k j js here owned, apart),
      ((k, here, omega arith), owned-weaken Q k js owned),
    )
  where
    start : (k : ℕ) → k + 0 ≡ k
    start k = omega arith

    next : (k i : ℕ) → k + suc i ≡ k + 1 + i
    next k i = omega arith

array_matchable-Pairable : (rows : List Row) (m : ℕ) → array_matchable rows m ≡ true → Pairable rows
unfolding array_matchable
array_matchable-Pairable rows m h =
    let (Q, round) =
      pair_all-IsRound (candidates_of rows) (m + 1) 0 (length rows) (λ j. none)
        (start-IsRound (candidates_of rows)) (ground (arith, h)) in
    let (js, fits, apart, owned) = collect Q 0 rows (λ i lt.
      let (j, at_j) = round.covers i (omega (arith, lt)) in
      (
        j,
        at_j ∙ ap some (zero_plus i),
        sym (has-candidates rows i j) ∙ round.paired.edges j i at_j,
      )) in
    (js, fits, apart)
  where
    zero_plus : (i : ℕ) → i ≡ 0 + i
    zero_plus i = omega arith

Pairable-array_matchable :
    (rows : List Row) (m : ℕ)
    → All (λ r. length r ≡ m) rows
    → Pairable rows
    → array_matchable rows m ≡ true
unfolding array_matchable
Pairable-array_matchable rows m wide (js, fits, apart) = rw (Fits-any_empty rows js fits) (
    pair_all-true (candidates_of rows) m (candidates-bounded m rows wide) 0 (length rows) (nth js)
      (λ j. none)
      (subst (λ n. IsChoice (candidates_of rows) n (nth js)) (zero_plus (length rows))
        (Fits-IsChoice rows js fits apart))
      (start-IsRound (candidates_of rows)))
  where
    zero_plus : (i : ℕ) → i ≡ 0 + i
    zero_plus i = omega arith

-- Given the outcome of each comparison of an expected element with an actual one, the code calls two
-- arrays equal in any order exactly when each expected element has an actual one of its own that fits
-- it, and either extra elements are ignored or there are as many actual as expected ones.
pub array_equal_unordered_correct :
    (rows : List Row) (m : ℕ) (ignore_extra : Bool)
    → All (λ r. length r ≡ m) rows
    → (array_equal_unordered rows m ignore_extra ≡ true)
      ↔ (Pairable rows × ((ignore_extra ≡ true) ⊎ (m ≡ length rows)))
unfolding array_equal_unordered
array_equal_unordered_correct rows m ignore_extra wide = (sound, complete)
  where
    sound :
        array_equal_unordered rows m ignore_extra ≡ true
        → Pairable rows × ((ignore_extra ≡ true) ⊎ (m ≡ length rows))
    sound h = (
      elim (Bool-cases (greedy rows (falses m))) [
        | inl e ↦
            let (js, fits, apart, fresh) = greedy-Pairable rows (falses m) e in (js, fits, apart)
        | inr e ↦ array_matchable-Pairable rows m (ground (arith, h, e))
      ],
      ground (arith, h),
    )

    complete :
        Pairable rows × ((ignore_extra ≡ true) ⊎ (m ≡ length rows))
        → array_equal_unordered rows m ignore_extra ≡ true
    complete ((js, fits, apart), same) =
        let fewer : length rows ≤ m = omega (
          arith,
          bounded-length m js apart (Fits-bounded m rows js wide fits),
          Fits-length rows js fits,
        ) in
        ground (arith, fewer, same, Pairable-array_matchable rows m wide (js, fits, apart))

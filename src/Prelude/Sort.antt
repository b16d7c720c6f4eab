-- ===== src/Prelude/Sort.antt =====
-- `sort.SliceStable`: the stable sort by a `less` function, as insertion sort. The order of the
-- result is the one that any stable sort gives.
use mathlib.Core.Path.{◌≡◌, refl, ap, sym, ◌∙◌}
use mathlib.Core.Logic.{◌⊎◌, inl, inr}
use mathlib.Core.Bool.{Bool, true, false}
use mathlib.Core.List.{List, [], ◌∷◌, ◌++◌, Perm}
use mathlib.Core.List.Perm
use native.Mathlib.Omega.{arith}
use mockulus.Prelude.Tests.{if◌then◌else◌, Bool-cases}
use Prim.Native.Nat.{suc}
use mockulus.Prelude.Lists.{All, keep, length}

module _ {ℓ} {A : Type ℓ} (less : A → A → Bool) where
  unfoldable pub insert : A → List A → List A
  insert x [] = x ∷ []
  insert x (y ∷ ys) = let rest = insert x ys in if less y x then y ∷ rest else x ∷ y ∷ ys

  unfoldable pub sort : List A → List A
  unfolding insert
  sort [] = []
  sort (x ∷ xs) = insert x (sort xs)

  -- No element stands behind one that it should precede.
  abbrev pub IsSorted : List A → Type 0
  IsSorted [] = Unit
  IsSorted (x ∷ l) = All (λ y. less y x ≡ false) l × IsSorted l

  -- Two elements that the order tells apart.
  abbrev pub Apart : A → A → Type 0
  Apart x y = (less x y ≡ true) ⊎ (less y x ≡ true)

  pub record IsOrder : Type ℓ where
    pub asym : (x y : A) → less x y ≡ true → less y x ≡ false
    pub trans : (x y z : A) → less x y ≡ true → less y z ≡ true → less x z ≡ true
    pub weak : (x y z : A) → less y x ≡ false → less z y ≡ false → less z x ≡ false

module _ {ℓ} {A : Type ℓ} {less : A → A → Bool} (order : IsOrder less) where
  open order use {asym, trans, weak}

  -- Insertions of two elements that the order tells apart commute.
  insert_comm_lt :
      (x y : A) (l : List A)
      → less y x ≡ true
      → insert less x (insert less y l) ≡ insert less y (insert less x l)
  unfolding insert
  insert_comm_lt x y [] h = ground (arith, asym y x)
  insert_comm_lt x y (z ∷ l) h = ground (arith, asym y x, trans z y x, insert_comm_lt x y l)

  pub insert_comm :
      (x y : A) (l : List A)
      → Apart less x y
      → insert less x (insert less y l) ≡ insert less y (insert less x l)
  insert_comm x y l (inl h) = sym (insert_comm_lt y x l h)
  insert_comm x y l (inr h) = insert_comm_lt x y l h

  -- Sorting a prefix first changes nothing, because the sort is stable.
  insert-foldr :
      (x : A) (l m : List A) → sort less (insert less x l ++ m) ≡ insert less x (sort less (l ++ m))
  unfolding sort
  insert-foldr x [] m = refl
  insert-foldr x (y ∷ l) m = elim (Bool-cases (less y x)) [
    | inl e ↦
        rw e (
          ap (insert less y) (insert-foldr x l m) ∙ sym (insert_comm_lt x y (sort less (l ++ m)) e))
    | inr e ↦ rw e
  ]

  pub sort-sort-append : (xs m : List A) → sort less (sort less xs ++ m) ≡ sort less (xs ++ m)
  unfolding sort
  sort-sort-append [] m = refl
  sort-sort-append (x ∷ xs) m =
      insert-foldr x (sort less xs) m ∙ ap (insert less x) (sort-sort-append xs m)

  sort-keep-insert :
      (p : A → Bool) (x : A) (l : List A)
      → sort less (keep p (insert less x l))
        ≡ (if p x then insert less x (sort less (keep p l)) else sort less (keep p l))
  unfolding insert sort
  sort-keep-insert p x [] = ground arith
  sort-keep-insert p x (y ∷ l) = elim (Bool-cases (less y x)) [
    | inl e ↦
        rw e (ground (arith, sort-keep-insert p x l, insert_comm_lt x y (sort less (keep p l)) e))
    | inr e ↦ rw e (ground arith)
  ]

  pub sort-keep-sort :
      (p : A → Bool) (xs : List A) → sort less (keep p (sort less xs)) ≡ sort less (keep p xs)
  unfolding sort
  sort-keep-sort p [] = refl
  sort-keep-sort p (x ∷ xs) =
      sort-keep-insert p x (sort less xs) ∙ ground (arith, sort-keep-sort p xs)

  All-insert {κ} : (P : A → Type κ) (x : A) (l : List A) → P x → All P l → All P (insert less x l)
  unfolding insert
  All-insert P x [] hx h = (hx, tt)
  All-insert P x (y ∷ l) hx h = elim (Bool-cases (less y x)) [
    | inl e ↦ rw e (h.0, All-insert P x l hx h.1)
    | inr e ↦ rw e (hx, h)
  ]

  pub All-sort {κ} : (P : A → Type κ) (xs : List A) → All P xs → All P (sort less xs)
  unfolding sort
  All-sort P [] h = tt
  All-sort P (x ∷ xs) h = All-insert P x (sort less xs) h.0 (All-sort P xs h.1)

  All-behind :
      (x y : A) (l : List A)
      → less y x ≡ false
      → All (λ z. less z y ≡ false) l
      → All (λ z. less z x ≡ false) l
  All-behind x y [] h k = tt
  All-behind x y (z ∷ l) h k = (weak x y z h k.0, All-behind x y l h k.1)

  insert-IsSorted : (x : A) (l : List A) → IsSorted less l → IsSorted less (insert less x l)
  unfolding insert
  insert-IsSorted x [] h = (tt, tt)
  insert-IsSorted x (y ∷ l) h = elim (Bool-cases (less y x)) [
    | inl e ↦ rw e (All-insert _ x l (asym y x e) h.0, insert-IsSorted x l h.1)
    | inr e ↦ rw e ((e, All-behind x y l e h.0), h)
  ]

  -- The result is in order.
  pub sort-IsSorted : (xs : List A) → IsSorted less (sort less xs)
  unfolding sort
  sort-IsSorted [] = tt
  sort-IsSorted (x ∷ xs) = insert-IsSorted x (sort less xs) (sort-IsSorted xs)

  insert-perm : (x : A) (l : List A) → Perm (insert less x l) (x ∷ l)
  unfolding insert
  insert-perm x [] = Perm.refl (x ∷ [])
  insert-perm x (y ∷ l) = elim (Bool-cases (less y x)) [
    | inl e ↦ rw e (Perm.trans (Perm.cons y (insert-perm x l)) (Perm.swap x y l))
    | inr e ↦ rw e (Perm.refl (x ∷ y ∷ l))
  ]

  -- The result holds the same elements, each as often.
  pub sort-perm : (xs : List A) → Perm (sort less xs) xs
  unfolding sort
  sort-perm [] = Perm.refl []
  sort-perm (x ∷ xs) = Perm.trans (insert-perm x (sort less xs)) (Perm.cons x (sort-perm xs))

  length-insert : (x : A) (l : List A) → length (insert less x l) ≡ suc (length l)
  unfolding insert
  length-insert x [] = refl
  length-insert x (y ∷ l) = ground (arith, length-insert x l)

  pub length-sort : (l : List A) → length (sort less l) ≡ length l
  unfolding sort
  length-sort [] = refl
  length-sort (x ∷ l) = length-insert x (sort less l) ∙ ap suc (length-sort l)

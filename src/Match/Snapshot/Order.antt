-- ===== src/Match/Snapshot/Order.antt =====
-- internal/match/snapshot.go: `sortSelectionOrder`.
use mockulus.Prelude.{
  ℕ, ◌≡◌, ◌≢◌, ◌⊎◌, ◌≤◌, sym, inl, inr, true, false, List, [], ◌∷◌, All, arith, Bool-cases,
}
use mockulus.Prelude.Int.{◌<ℤ◌, ◌==ℤ◌, ==ℤ-eq}
use mockulus.Prelude.Sort
use mathlib.Core.List.{Perm}
use mockulus.Prelude.Sort.{IsOrder, IsSorted, sort-perm, Apart, sort-IsSorted}
use mockulus.Stub.{CompiledStub}
use mockulus.Match.Snapshot.Defs.{precedes, sort_selection_order, build_snapshot}
use mockulus.Match.Snapshot.Index.{ordered-build}

pub precedes-IsOrder : IsOrder precedes
precedes-IsOrder = record {
  asym = λ x y h. ground arith;
  trans = λ x y z h k. ground arith;
  weak = λ x y z h k. ground arith;
}

-- Stubs of different sequences are told apart.
pub seq-Apart : (a b : CompiledStub) → a.seq ≢ b.seq → Apart precedes a b
seq-Apart a b h = elim (Bool-cases (precedes a b)) [ inl e ↦ inl e | inr e ↦ inr (ground arith) ]

-- One stub may stand in front of another: its priority is a smaller number, or it is the same one and
-- it was not added before the other.
abbrev pub StandsBefore : CompiledStub → CompiledStub → Type 0
StandsBefore a b = (a.priority <ℤ b.priority ≡ true) ⊎ ((a.priority ≡ b.priority) × (b.seq ≤ a.seq))

abbrev pub IsSelectionOrder : List CompiledStub → Type 0
IsSelectionOrder [] = Unit
IsSelectionOrder (x ∷ l) = All (StandsBefore x) l × IsSelectionOrder l

not-precedes : (a b : CompiledStub) → precedes b a ≡ false → StandsBefore a b
not-precedes a b h = elim (Bool-cases (b.priority ==ℤ a.priority)) [
  | inl e ↦ inr (sym (==ℤ-eq b.priority a.priority e), ground (arith, e, h))
  | inr e ↦ inl (ground (arith, e, h))
]

All-not-precedes :
    (a : CompiledStub) (l : List CompiledStub)
    → All (λ b. precedes b a ≡ false) l
    → All (StandsBefore a) l
All-not-precedes a [] h = tt
All-not-precedes a (b ∷ l) h = (not-precedes a b h.0, All-not-precedes a l h.1)

sorted-IsSelectionOrder : (l : List CompiledStub) → IsSorted precedes l → IsSelectionOrder l
sorted-IsSelectionOrder [] h = tt
sorted-IsSelectionOrder (x ∷ l) h = (All-not-precedes x l h.0, sorted-IsSelectionOrder l h.1)

-- A built snapshot lists exactly the stubs that it was built from, each in front of all whose priority
-- is a greater number and, at equal priority, in front of all whose sequence is smaller.
pub build-IsSorted :
    (stubs : List CompiledStub) (epoch : ℕ)
    → IsSelectionOrder (build_snapshot stubs epoch).ordered
      × Perm (build_snapshot stubs epoch).ordered stubs
unfolding sort_selection_order
build-IsSorted stubs epoch = rw ordered-build (
  sorted-IsSelectionOrder (Sort.sort precedes stubs) (sort-IsSorted precedes-IsOrder stubs),
  sort-perm precedes-IsOrder stubs,
)

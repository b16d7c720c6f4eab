-- ===== src/Matchers/Pairing/Stuck.antt =====
-- internal/matchers/matchers.go: what a search for an augmenting path that fails has found out.
use mockulus.Prelude.{
  ℕ, zero, suc, ◌+◌, ◌<◌, ◌≡◌, refl, subst, true, false, Option, none, some, List, [], ◌∷◌, All,
  length, arith, Bool-cases, inl, inr,
}
use mockulus.Matchers.Pairing.Defs.{Paired, has, Found, after_search, repair, try_each, augment}
use mockulus.Matchers.Pairing.Finite.{NoRepeat, bounded-length, within-length, IsWithin}
use mockulus.Matchers.Pairing.Moves.{has-head, has-tail, has-cons, ℕ-cases}
use mockulus.Matchers.Pairing.Augment.{Grows, try_each-Grows, augment-Grows}

-- One list holds all that another does.
abbrev pub Extends : List ℕ → List ℕ → Type 0
Extends V V' = (j : ℕ) → has j V ≡ true → has j V' ≡ true

IsWithin-Extends : (l V V' : List ℕ) → Extends V V' → IsWithin l V → IsWithin l V'
IsWithin-Extends [] V V' more h = tt
IsWithin-Extends (x ∷ l) V V' more h = (more x h.0, IsWithin-Extends l V V' more h.1)

Extends-IsWithin : (V V' : List ℕ) → Extends V V' → IsWithin V V'
Extends-IsWithin [] V' more = tt
Extends-IsWithin (x ∷ V) V' more =
    (more x (has-head x V), Extends-IsWithin V V' (λ j q. more j (has-tail x j V q)))

module _ (candidates : ℕ → List ℕ) (m : ℕ) (bound : (i : ℕ) → All (λ j. j < m) (candidates i)) where
  -- Visited elements are visited once, and are elements.
  pub record IsSeen (V : List ℕ) : Type 0 where
    pub once : NoRepeat V
    pub bounded : All (λ j. j < m) V

  -- A search that failed over some candidates has visited these, and each element that it visited
  -- answers an expected one whose candidates are all visited.
  pub record IsStuck (js V : List ℕ) (P : Paired) (V' : List ℕ) : Type 0 where
    pub seen : IsSeen V'
    pub tried : IsWithin js V'
    pub closed :
        (j : ℕ)
        → has j V' ≡ true
        → has j V ≡ false
        → (k : ℕ) × P j ≡ some k × IsWithin (candidates k) V'

  abbrev pub FailsStuck : List ℕ → List ℕ → Paired → Found → Type 0
  FailsStuck js V P (some P', V') = Unit
  FailsStuck js V P (none, V') = IsStuck js V P V'

  skip-FailsStuck :
      (j : ℕ) (js V : List ℕ) (P : Paired) (found : Found)
      → has j V ≡ true
      → Grows V found
      → FailsStuck js V P found
      → FailsStuck (j ∷ js) V P found
  skip-FailsStuck j js V P (some P', V') h grow stuck = tt
  skip-FailsStuck j js V P (none, V') h grow stuck = record {
    seen = stuck.seen;
    tried = (grow j h, stuck.tried);
    closed = stuck.closed;
  }

  -- Two failed searches after one another.
  join-FailsStuck :
      (i' j : ℕ) (js V V2 : List ℕ) (P : Paired) (found : Found)
      → P j ≡ some i'
      → Extends (j ∷ V) V2
      → IsStuck (candidates i') (j ∷ V) P V2
      → Grows V2 found
      → FailsStuck js V2 P found
      → FailsStuck (j ∷ js) V P found
  join-FailsStuck i' j js V V2 P (some P', V3) old wider first grow second = tt
  join-FailsStuck i' j js V V2 P (none, V3) old wider first grow second = record {
    seen = second.seen;
    tried = (grow j (wider j (has-head j V)), second.tried);
    closed = λ x in3 out. elim (Bool-cases (has x V2)) [
      | inr out2 ↦ second.closed x in3 out2
      | inl in2 ↦ elim (ℕ-cases j x) [
        | inl e ↦ (
          i',
          subst (λ y. P y ≡ some i') e old,
          IsWithin-Extends (candidates i') V2 V3 grow first.tried,
        )
        | inr ne ↦
            let (k, at, within) = first.closed x in2 (elim (Bool-cases (has x (j ∷ V))) [
              | inr unseen ↦ unseen
              | inl seen ↦ ground (arith, out, has-cons j x V ne seen)
            ]) in
            (k, at, IsWithin-Extends (candidates k) V2 V3 grow within)
      ]
    ];
  }

  module _ (n : ℕ) (again : ℕ → List ℕ → Paired → Found)
      (grown : (i : ℕ) (V : List ℕ) (P : Paired) → Grows V (again i V P))
      (stuck : (i : ℕ) (V : List ℕ) (P : Paired)
        → IsSeen V
        → m < n + length V
        → FailsStuck (candidates i) V P (again i V P)) where
    after_search-FailsStuck :
        (i i' j : ℕ) (js V : List ℕ) (P : Paired) (continue : List ℕ → Found) (found : Found)
        → P j ≡ some i'
        → Grows (j ∷ V) found
        → FailsStuck (candidates i') (j ∷ V) P found
        → ((seen : List ℕ) → Grows seen (continue seen))
        → ((seen : List ℕ)
            → IsSeen seen
            → Extends (j ∷ V) seen
            → FailsStuck js seen P (continue seen))
        → FailsStuck (j ∷ js) V P (after_search i j continue found)
    after_search-FailsStuck i i' j js V P continue (some P', V') old grow first next_grows next = tt
    after_search-FailsStuck i i' j js V P continue (none, V') old grow first next_grows next =
        join-FailsStuck i' j js V V' P (continue V') old grow first (next_grows V')
          (next V' first.seen grow)

    repair-FailsStuck :
        (i j : ℕ) (js V : List ℕ) (P : Paired) (continue : List ℕ → Found) (o : Option ℕ)
        → P j ≡ o
        → IsSeen (j ∷ V)
        → m < n + length (j ∷ V)
        → ((seen : List ℕ) → Grows seen (continue seen))
        → ((seen : List ℕ)
            → IsSeen seen
            → Extends (j ∷ V) seen
            → FailsStuck js seen P (continue seen))
        → FailsStuck (j ∷ js) V P (repair again i j continue (j ∷ V) P o)
    repair-FailsStuck i j js V P continue none at seen room next_grows next = tt
    repair-FailsStuck i j js V P continue (some i') at seen room next_grows next =
        after_search-FailsStuck i i' j js V P continue (again i' (j ∷ V) P) at (grown i' (j ∷ V) P)
          (stuck i' (j ∷ V) P seen room) next_grows next

    try_each-FailsStuck :
        (i : ℕ) (js V : List ℕ) (P : Paired)
        → All (λ j. j < m) js
        → IsSeen V
        → m < suc n + length V
        → FailsStuck js V P (try_each again i js V P)
    unfolding try_each
    try_each-FailsStuck i [] V P small seen room = record {
      seen = seen;
      tried = tt;
      closed = λ j h k. ground (arith, h, k);
    }
    try_each-FailsStuck i (j ∷ js) V P small seen room = elim (Bool-cases (has j V)) [
      | inl e ↦ rw e (
          skip-FailsStuck j js V P (try_each again i js V P) e (try_each-Grows again grown i js V P)
            (try_each-FailsStuck i js V P small.1 seen room))
      | inr e ↦ rw e (
          repair-FailsStuck i j js V P (λ s. try_each again i js s P) (P j) refl
            (record { once = (e, seen.once); bounded = (small.0, seen.bounded) })
            (omega (arith, room)) (λ s. try_each-Grows again grown i js s P)
            (λ s seen' wider. try_each-FailsStuck i js s P small.1 seen' (
              omega (
                arith,
                room,
                within-length (j ∷ V) s (e, seen.once) (Extends-IsWithin (j ∷ V) s wider),
              ))))
    ]

  pub augment-FailsStuck :
      (n i : ℕ) (V : List ℕ) (P : Paired)
      → IsSeen V
      → m < n + length V
      → FailsStuck (candidates i) V P (augment candidates n i V P)
  unfolding augment
  augment-FailsStuck zero i V P seen room =
      absurd (omega (arith, room, bounded-length m V seen.once seen.bounded))
  augment-FailsStuck (suc n) i V P seen room =
      try_each-FailsStuck n (augment candidates n) (augment-Grows candidates n)
        (augment-FailsStuck n) i (candidates i) V P (bound i) seen room

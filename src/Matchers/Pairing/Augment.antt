-- ===== src/Matchers/Pairing/Augment.antt =====
-- internal/matchers/matchers.go: a search for an augmenting path that succeeds, and one that fails.
use mockulus.Prelude.{
  ℕ, zero, suc, ◌≡◌, refl, sym, ◌∙◌, subst, true, false, Option, none, some, List, [], ◌∷◌, arith,
  Bool-cases, inl, inr,
}
use mockulus.Matchers.Pairing.Defs.{Paired, has, Found, after_search, repair, try_each, augment}
use mockulus.Matchers.Pairing.Finite.{IsWithin}
use mockulus.Matchers.Pairing.Moves.{IsReady, Moves, free-Moves, repaired-Moves, has-head, has-tail}

-- A search visits more and more elements.
abbrev pub Grows : List ℕ → Found → Type 0
Grows V found = (j : ℕ) → has j V ≡ true → has j found.1 ≡ true

module _ (again : ℕ → List ℕ → Paired → Found)
    (grown : (i : ℕ) (V : List ℕ) (P : Paired) → Grows V (again i V P)) where
  pub after_search-Grows :
      (i j : ℕ) (continue : List ℕ → Found) (V : List ℕ) (found : Found)
      → ((seen : List ℕ) → Grows seen (continue seen))
      → Grows V found
      → Grows V (after_search i j continue found)
  after_search-Grows i j continue V (some P, V') next h = h
  after_search-Grows i j continue V (none, V') next h = λ k q. next V' k (h k q)

  pub repair-Grows :
      (i j : ℕ) (continue : List ℕ → Found) (V : List ℕ) (P : Paired) (o : Option ℕ)
      → ((seen : List ℕ) → Grows seen (continue seen))
      → Grows V (repair again i j continue V P o)
  repair-Grows i j continue V P none next = λ k q. q
  repair-Grows i j continue V P (some i') next =
      after_search-Grows i j continue V (again i' V P) next (grown i' V P)

  pub try_each-Grows : (i : ℕ) (js V : List ℕ) (P : Paired) → Grows V (try_each again i js V P)
  unfolding try_each
  try_each-Grows i [] V P = λ k q. q
  try_each-Grows i (j ∷ js) V P = elim (Bool-cases (has j V)) [
    | inl e ↦ rw e (try_each-Grows i js V P)
    | inr e ↦ rw e (λ k q.
        repair-Grows i j (λ seen. try_each again i js seen P) (j ∷ V) P (P j)
          (λ seen. try_each-Grows i js seen P) k (has-tail j k V q))
  ]

module _ (candidates : ℕ → List ℕ) where
  -- A search that has succeeded has done so by `Moves`.
  abbrev pub HasMoved : ℕ → List ℕ → Paired → Found → Type 0
  HasMoved i V P (some P', V') = Moves candidates i V P P'
  HasMoved i V P (none, V') = Unit

  -- With more elements visited the same search does less.
  widen :
      (i : ℕ) (V V' : List ℕ) (P : Paired) (found : Found)
      → ((j : ℕ) → has j V ≡ true → has j V' ≡ true)
      → IsReady candidates i V P
      → HasMoved i V' P found
      → HasMoved i V P found
  widen i V V' P (none, V2) more ready h = tt
  widen i V V' P (some P', V2) more ready h = record {
    frame = λ j q. h.frame j (more j q);
    edges = h.edges;
    origin = h.origin;
    once = h.once;
    once_i = λ j j' f f' q q'. h.once_i j j' (not_seen j f q) (not_seen j' f' q') q q';
    keeps = h.keeps;
    pairs = (h.pairs.0, fresh (h.pairs.0) (h.pairs.1), h.pairs.2);
  }
    where
      not_seen : (j : ℕ) → has j V ≡ false → P' j ≡ some i → has j V' ≡ false
      not_seen j f q = elim (Bool-cases (has j V')) [
        | inr unseen ↦ unseen
        | inl seen ↦ ground (arith, f, ready.only j (sym (h.frame j seen) ∙ q))
      ]

      fresh : (j : ℕ) → has j V' ≡ false → has j V ≡ false
      fresh j f = elim (Bool-cases (has j V)) [
        | inr unseen ↦ unseen
        | inl seen ↦ ground (arith, f, more j seen)
      ]

  wider-IsReady :
      (i : ℕ) (V V' : List ℕ) (P : Paired)
      → ((j : ℕ) → has j V ≡ true → has j V' ≡ true)
      → IsReady candidates i V P
      → IsReady candidates i V' P
  wider-IsReady i V V' P more ready = record {
    paired = ready.paired;
    only = λ j q. more j (ready.only j q);
  }

  module _ (again : ℕ → List ℕ → Paired → Found)
      (grown : (i : ℕ) (V : List ℕ) (P : Paired) → Grows V (again i V P)) where
    module _
        (good : (i : ℕ) (V : List ℕ) (P : Paired)
          → IsReady candidates i V P
          → HasMoved i V P (again i V P)) where
      after_search-HasMoved :
          (i i' j : ℕ) (continue : List ℕ → Found) (V : List ℕ) (P : Paired) (found : Found)
          → IsReady candidates i V P
          → has j (candidates i) ≡ true
          → has j V ≡ false
          → P j ≡ some i'
          → Grows (j ∷ V) found
          → HasMoved i' (j ∷ V) P found
          → ((seen : List ℕ)
              → ((k : ℕ) → has k V ≡ true → has k seen ≡ true)
              → HasMoved i V P (continue seen))
          → HasMoved i V P (after_search i j continue found)
      after_search-HasMoved i i' j continue V P (some P', V') ready edge fresh old grow moves next =
          repaired-Moves candidates i i' j V P P' ready edge fresh old moves
      after_search-HasMoved i i' j continue V P (none, V') ready edge fresh old grow moves next =
          next V' (λ k q. grow k (has-tail j k V q))

      repair-HasMoved :
          (i j : ℕ) (continue : List ℕ → Found) (V : List ℕ) (P : Paired) (o : Option ℕ)
          → IsReady candidates i V P
          → has j (candidates i) ≡ true
          → has j V ≡ false
          → P j ≡ o
          → ((seen : List ℕ)
              → ((k : ℕ) → has k V ≡ true → has k seen ≡ true)
              → HasMoved i V P (continue seen))
          → HasMoved i V P (repair again i j continue (j ∷ V) P o)
      repair-HasMoved i j continue V P none ready edge fresh free next =
          free-Moves candidates i j V P ready edge fresh free
      repair-HasMoved i j continue V P (some i') ready edge fresh old next =
          after_search-HasMoved i i' j continue V P (again i' (j ∷ V) P) ready edge fresh old
            (grown i' (j ∷ V) P)
            (good i' (j ∷ V) P (record {
              paired = ready.paired;
              only = λ k q.
                  subst (λ x. has x (j ∷ V) ≡ true) (ready.paired.once j k i' old q) (has-head j V);
            }))
            next

      pub try_each-HasMoved :
          (i : ℕ) (js V : List ℕ) (P : Paired)
          → IsReady candidates i V P
          → IsWithin js (candidates i)
          → HasMoved i V P (try_each again i js V P)
      unfolding try_each
      try_each-HasMoved i [] V P ready h = tt
      try_each-HasMoved i (j ∷ js) V P ready h = elim (Bool-cases (has j V)) [
        | inl e ↦ rw e (try_each-HasMoved i js V P ready h.1)
        | inr e ↦ rw e (
            repair-HasMoved i j (λ seen. try_each again i js seen P) V P (P j) ready h.0 e refl
              (λ seen more.
                widen i V seen P (try_each again i js seen P) more ready
                  (try_each-HasMoved i js seen P (wider-IsReady i V seen P more ready) h.1)))
      ]

  pub augment-Grows : (n i : ℕ) (V : List ℕ) (P : Paired) → Grows V (augment candidates n i V P)
  unfolding augment
  augment-Grows zero i V P = λ k q. q
  augment-Grows (suc n) i V P =
      try_each-Grows (augment candidates n) (augment-Grows n) i (candidates i) V P

  every-IsWithin : (l : List ℕ) → IsWithin l l
  every-IsWithin [] = tt
  every-IsWithin (x ∷ l) = (has-head x l, more-within x l l (every-IsWithin l))
    where
      more-within : (x : ℕ) (l m : List ℕ) → IsWithin l m → IsWithin l (x ∷ m)
      more-within x [] m h = tt
      more-within x (y ∷ l) m h = (has-tail x y m h.0, more-within x l m h.1)

  pub augment-HasMoved :
      (n i : ℕ) (V : List ℕ) (P : Paired)
      → IsReady candidates i V P
      → HasMoved i V P (augment candidates n i V P)
  unfolding augment
  augment-HasMoved zero i V P ready = tt
  augment-HasMoved (suc n) i V P ready =
      try_each-HasMoved (augment candidates n) (augment-Grows n) (augment-HasMoved n) i
        (candidates i) V P ready (every-IsWithin (candidates i))

-- ===== src/Matchers/Pairing/Moves.antt =====
-- internal/matchers/matchers.go: what `augmentPairing` does to the pairing when it succeeds.
use mockulus.Prelude.{
  ℕ, ◌≡◌, ◌≢◌, ◌⊎◌, refl, ap, sym, ◌∙◌, subst, true, false, none, some, List, ◌∷◌, ◌==◌, ==_iff,
  arith, Bool-cases, inl, inr,
}
use mockulus.Matchers.Pairing.Defs.{Paired, set, has}

pub some_inj : {x y : ℕ} → some x ≡ some y → x ≡ y
some_inj h = cc

set-same : (P : Paired) (j i : ℕ) → set P j i j ≡ some i
set-same P j i = rw ((==_iff j j).1 refl) refl

set-other : (P : Paired) (j i k : ℕ) → j ≢ k → set P j i k ≡ P k
set-other P j i k ne = elim (Bool-cases (j == k)) [
  | inl e ↦ absurd (ne ((==_iff j k).0 e))
  | inr e ↦ rw e refl
]

pub ℕ-cases : (j k : ℕ) → (j ≡ k) ⊎ (j ≢ k)
ℕ-cases j k = elim (Bool-cases (j == k)) [
  | inl e ↦ inl ((==_iff j k).0 e)
  | inr e ↦ inr (λ h. ground arith)
]

pub has-head : (j : ℕ) (V : List ℕ) → has j (j ∷ V) ≡ true
has-head j V = rw ((==_iff j j).1 refl) refl

pub has-tail : (j k : ℕ) (V : List ℕ) → has k V ≡ true → has k (j ∷ V) ≡ true
has-tail j k V h = ground arith

pub has-cons : (j k : ℕ) (V : List ℕ) → j ≢ k → has k (j ∷ V) ≡ true → has k V ≡ true
has-cons j k V ne h = ground arith

module _ (candidates : ℕ → List ℕ) where
  -- Each actual element answers an expected one that it fits, and none answers the same twice.
  pub record IsPaired (P : Paired) : Type 0 where
    pub edges : (j k : ℕ) → P j ≡ some k → has j (candidates k) ≡ true
    pub once : (j j' k : ℕ) → P j ≡ some k → P j' ≡ some k → j ≡ j'

  -- A pairing before a search from `i`: what `i` may answer already is visited.
  pub record IsReady (i : ℕ) (V : List ℕ) (P : Paired) : Type 0 where
    pub paired : IsPaired P
    pub only : (j : ℕ) → P j ≡ some i → has j V ≡ true

  -- A successful search from `i` pairs it with an element that was not visited, keeps each element
  -- paired that was, and leaves the visited ones alone.
  pub record Moves (i : ℕ) (V : List ℕ) (P P' : Paired) : Type 0 where
    pub frame : (j : ℕ) → has j V ≡ true → P' j ≡ P j
    pub edges : (j k : ℕ) → P' j ≡ some k → has j (candidates k) ≡ true
    pub origin : (j k : ℕ) → P' j ≡ some k → (k ≡ i) ⊎ ((j0 : ℕ) × P j0 ≡ some k)
    pub once : (j j' k : ℕ) → P' j ≡ some k → P' j' ≡ some k → k ≢ i → j ≡ j'
    pub once_i :
        (j j' : ℕ) → has j V ≡ false → has j' V ≡ false → P' j ≡ some i → P' j' ≡ some i → j ≡ j'
    pub keeps : (j0 k : ℕ) → P j0 ≡ some k → (j1 : ℕ) × P' j1 ≡ some k
    pub pairs : (j1 : ℕ) × has j1 V ≡ false × P' j1 ≡ some i

  -- What stands in the pairing after a change at one place.
  pub set-cases :
      (P : Paired) (j i p k : ℕ) → set P j i p ≡ some k → (j ≡ p × k ≡ i) ⊎ (j ≢ p × P p ≡ some k)
  set-cases P j i p k h = elim (ℕ-cases j p) [
    | inl e ↦ inl (e, some_inj (sym (subst (λ x. set P j i x ≡ some k) (sym e) h) ∙ set-same P j i))
    | inr ne ↦ inr (ne, sym (set-other P j i p ne) ∙ h)
  ]

  pub free-Moves :
      (i j : ℕ) (V : List ℕ) (P : Paired)
      → IsReady i V P
      → has j (candidates i) ≡ true
      → has j V ≡ false
      → P j ≡ none
      → Moves i V P (set P j i)
  free-Moves i j V P ready edge fresh free = record {
    frame = λ p h. set-other P j i p (λ e. ground (arith, subst (λ x. has x V ≡ false) e fresh));
    edges = λ p k h. elim (set-cases P j i p k h) [
      | inl (e, e') ↦
          subst (λ x. has x (candidates k) ≡ true) e
            (subst (λ y. has j (candidates y) ≡ true) (sym e') edge)
      | inr (ne, h') ↦ ready.paired.edges p k h'
    ];
    origin =
        λ p k h. elim (set-cases P j i p k h) [ inl (e, e') ↦ inl e' | inr (ne, h') ↦ inr (p, h') ];
    once = λ p p' k h h' ne. elim (set-cases P j i p k h) [
      | inl (e, e') ↦ absurd (ne e')
      | inr (_, q) ↦ elim (set-cases P j i p' k h') [
        | inl (e, e') ↦ absurd (ne e')
        | inr (_, q') ↦ ready.paired.once p p' k q q'
      ]
    ];
    once_i = λ p p' out out' h h'. elim (set-cases P j i p i h) [
      | inr (_, q) ↦ ground (arith, ready.only p q)
      | inl (e, _) ↦ elim (set-cases P j i p' i h') [
        | inr (_, q) ↦ ground (arith, ready.only p' q)
        | inl (e', _) ↦ sym e ∙ e'
      ]
    ];
    keeps = λ p k h.
        (p, set-other P j i p (λ e. ground (arith, subst (λ x. P x ≡ none) e free, h)) ∙ h);
    pairs = (j, fresh, set-same P j i);
  }

  -- Once the element `i'` that `j` answered has found another, `j` may answer `i`.
  pub repaired-Moves :
      (i i' j : ℕ) (V : List ℕ) (P P' : Paired)
      → IsReady i V P
      → has j (candidates i) ≡ true
      → has j V ≡ false
      → P j ≡ some i'
      → Moves i' (j ∷ V) P P'
      → Moves i V P (set P' j i)
  repaired-Moves i i' j V P P' ready edge fresh old moves = record {
    frame = λ p h.
        set-other P' j i p (λ e. ground (arith, subst (λ x. has x V ≡ false) e fresh))
        ∙ moves.frame p (has-tail j p V h);
    edges = λ p k h. elim (set-cases P' j i p k h) [
      | inl (e, e') ↦
          subst (λ x. has x (candidates k) ≡ true) e
            (subst (λ y. has j (candidates y) ≡ true) (sym e') edge)
      | inr (ne, h') ↦ moves.edges p k h'
    ];
    origin = λ p k h. elim (set-cases P' j i p k h) [
      | inl (e, e') ↦ inl e'
      | inr (ne, h') ↦ elim (moves.origin p k h') [
        | inl e ↦ inr (j, old ∙ ap some (sym e))
        | inr o ↦ inr o
      ]
    ];
    once = λ p p' k h h' ne. elim (set-cases P' j i p k h) [
      | inl (e, e') ↦ absurd (ne e')
      | inr (jp, q) ↦ elim (set-cases P' j i p' k h') [
        | inl (e, e') ↦ absurd (ne e')
        | inr (jp', q') ↦ elim (ℕ-cases k i') [
          | inr other ↦ moves.once p p' k q q' other
          | inl e ↦
              moves.once_i p p' (out p jp (q ∙ ap some e)) (out p' jp' (q' ∙ ap some e))
                (q ∙ ap some e) (q' ∙ ap some e)
        ]
      ]
    ];
    once_i = λ p p' fp fp' h h'. sym (at_j p fp h) ∙ at_j p' fp' h';
    keeps = λ p k h. elim (ℕ-cases k i') [
      | inl e ↦
          let (j1, out1, at1) = moves.pairs in
          (
            j1,
            set-other P' j i j1 (λ e'.
                  ground (arith, subst (λ x. has x (j ∷ V) ≡ false) (sym e') out1, has-head j V))
                ∙ at1
                ∙ ap some (sym e),
          )
      | inr ne ↦
          let (j1, at1) = moves.keeps p k h in
          (
            j1,
            set-other P' j i j1 (λ e'.
                  ne (some_inj (sym at1 ∙ ap P' (sym e') ∙ moves.frame j (has-head j V) ∙ old)))
                ∙ at1,
          )
    ];
    pairs = (j, fresh, set-same P' j i);
  }
    where
      -- What answers `i'` after the search, but for `j`, was not visited.
      out : (p : ℕ) → j ≢ p → P' p ≡ some i' → has p (j ∷ V) ≡ false
      out p ne q = elim (Bool-cases (has p (j ∷ V))) [
        | inr unseen ↦ unseen
        | inl seen ↦ absurd (ne (ready.paired.once j p i' old (sym (moves.frame p seen) ∙ q)))
      ]

      -- What newly answers `i` is `j`.
      at_j : (p : ℕ) → has p V ≡ false → set P' j i p ≡ some i → j ≡ p
      at_j p fp h = elim (set-cases P' j i p i h) [
        | inl (e, _) ↦ e
        | inr (jp, q) ↦ elim (moves.origin p i q) [
          | inl e ↦ ground (arith, fresh, ready.only j (old ∙ ap some (sym e)))
          | inr (j0, o) ↦
              let seen = ready.only j0 o in
              let same =
                moves.once p j0 i q (moves.frame j0 (has-tail j j0 V seen) ∙ o)
                  (λ e. ground (arith, fresh, ready.only j (old ∙ ap some (sym e)))) in
              ground (arith, fp, subst (λ x. has x V ≡ true) (sym same) seen)
        ]
      ]

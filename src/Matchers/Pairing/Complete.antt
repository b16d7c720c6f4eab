-- ===== src/Matchers/Pairing/Complete.antt =====
-- internal/matchers/matchers.go: `arrayMatchable` finds a pairing whenever there is one.
use mockulus.Prelude.{
  ℕ, zero, suc, ◌+◌, ◌<◌, ◌≡◌, refl, ap, sym, ◌∙◌, subst, Bool, true, none, some, List, [], ◌∷◌,
  All, map, length, arith, Bool-cases, inl, inr,
}
use mockulus.Matchers.Pairing.Defs.{Paired, has, Found, augment, next_pair, pair_all}
use mockulus.Matchers.Pairing.Finite.{NoRepeat, within-length, IsWithin}
use mockulus.Matchers.Pairing.Moves.{IsPaired, IsReady, Moves, has-head, has-tail, ℕ-cases}
use mockulus.Matchers.Pairing.Augment.{HasMoved, augment-HasMoved}
use mockulus.Matchers.Pairing.Stuck.{IsStuck, FailsStuck, augment-FailsStuck}

-- Where an image stands, what it is the image of does.
has-map :
    (f : ℕ → ℕ) (z : ℕ) (l : List ℕ) → has z (map f l) ≡ true → (y : ℕ) × has y l ≡ true × f y ≡ z
has-map f z [] h = ground arith
has-map f z (x ∷ l) h = elim (ℕ-cases (f x) z) [
  | inl e ↦ (x, has-head x l, e)
  | inr ne ↦
      let (y, there, e) = has-map f z l (ground (arith, h, ne)) in (y, has-tail x y l there, e)
]

pub map-NoRepeat :
    (f : ℕ → ℕ) (l : List ℕ)
    → NoRepeat l
    → ((x y : ℕ) → has x l ≡ true → has y l ≡ true → f x ≡ f y → x ≡ y)
    → NoRepeat (map f l)
map-NoRepeat f [] h inj = tt
map-NoRepeat f (x ∷ l) h inj = (
  elim (Bool-cases (has (f x) (map f l))) [
    | inr unseen ↦ unseen
    | inl seen ↦
        let (y, there, e) = has-map f (f x) l seen in
        ground (arith, h.0, there, inj y x (has-tail x y l there) (has-head x l) e)
  ],
  map-NoRepeat f l h.1 (λ a b p q. inj a b (has-tail x a l p) (has-tail x b l q)),
)

map-IsWithin :
    (f : ℕ → ℕ) (l m : List ℕ)
    → ((x : ℕ) → has x l ≡ true → has (f x) m ≡ true)
    → IsWithin (map f l) m
map-IsWithin f [] m h = tt
map-IsWithin f (x ∷ l) m h =
    (h x (has-head x l), map-IsWithin f l m (λ y q. h y (has-tail x y l q)))

length-map : (f : ℕ → ℕ) (l : List ℕ) → length (map f l) ≡ length l
length-map f [] = refl
length-map f (x ∷ l) = ap suc (length-map f l)

within-has : (x : ℕ) (l m : List ℕ) → IsWithin l m → has x l ≡ true → has x m ≡ true
within-has x [] m h q = ground arith
within-has x (y ∷ l) m h q = elim (ℕ-cases y x) [
  | inl e ↦ subst (λ z. has z m ≡ true) e h.0
  | inr ne ↦ within-has x l m h.1 (ground (arith, q, ne))
]

abbrev owner : Paired → ℕ → ℕ
owner P j = elim (P j) [ none ↦ 0 | some k ↦ k ]

module _ (candidates : ℕ → List ℕ) where
  -- A choice of a candidate for each of the first elements, no two the same.
  pub record IsChoice (n : ℕ) (choice : ℕ → ℕ) : Type 0 where
    pub fits : (i : ℕ) → i < n → has (choice i) (candidates i) ≡ true
    pub apart : (i k : ℕ) → i < n → k < n → choice i ≡ choice k → i ≡ k

  -- After a number of rounds exactly the elements of these rounds are paired.
  pub record IsRound (i : ℕ) (P : Paired) : Type 0 where
    pub paired : IsPaired candidates P
    pub below : (j k : ℕ) → P j ≡ some k → k < i
    pub covers : (k : ℕ) → k < i → (j : ℕ) × P j ≡ some k

  pub start-IsRound : IsRound 0 (λ j. none)
  start-IsRound = record {
    paired = record { edges = λ j k h. ground arith; once = λ j j' k h h'. ground arith };
    below = λ j k h. ground arith;
    covers = λ k h. ground arith;
  }

  next-IsRound :
      (i : ℕ) (P P' : Paired) → IsRound i P → Moves candidates i [] P P' → IsRound (i + 1) P'
  next-IsRound i P P' round moves = record {
    paired = record {
      edges = moves.edges;
      once = λ j j' k h h'. elim (ℕ-cases k i) [
        | inl e ↦ moves.once_i j j' refl refl (h ∙ ap some e) (h' ∙ ap some e)
        | inr ne ↦ moves.once j j' k h h' ne
      ];
    };
    below = λ j k h. elim (moves.origin j k h) [
      | inl e ↦ omega (arith, e)
      | inr (j0, o) ↦ omega (arith, round.below j0 k o)
    ];
    covers = λ k lt. elim (ℕ-cases k i) [
      | inl e ↦ (moves.pairs.0, moves.pairs.2 ∙ ap some (sym e))
      | inr ne ↦ let (j, at) = round.covers k (ground (arith, lt, ne)) in moves.keeps j k at
    ];
  }

  round-IsReady : (i : ℕ) (P : Paired) → IsRound i P → IsReady candidates i [] P
  round-IsReady i P round = record {
    paired = round.paired;
    only = λ j h. ground (arith, round.below j i h);
  }

  module _ (m : ℕ) (bound : (i : ℕ) → All (λ j. j < m) (candidates i)) where
    -- A failed search leaves too few elements for a choice: those visited are the candidates of one
    -- more element than answer.
    stuck-absurd :
        (i n : ℕ) (choice : ℕ → ℕ) (P : Paired) (V : List ℕ)
        → IsChoice n choice
        → i < n
        → IsRound i P
        → IsStuck candidates m bound (candidates i) [] P V
        → ⊥
    stuck-absurd i n choice P V chosen lt round stuck =
        omega (arith, length-map answer V, within-length (choice i ∷ map answer V) V apart within)
      where
        answer : ℕ → ℕ
        answer j = choice (owner P j)

        owned :
            (j : ℕ) → has j V ≡ true → P j ≡ some (owner P j) × IsWithin (candidates (owner P j)) V
        owned j seen =
            let (k, at, closed) = stuck.closed j seen refl in
            let same : owner P j ≡ k = ap (λ o. elim o [ none ↦ 0 | some x ↦ x ]) at in
            (at ∙ ap some (sym same), subst (λ x. IsWithin (candidates x) V) (sym same) closed)

        small : (j : ℕ) → has j V ≡ true → owner P j < i
        small j seen = round.below j (owner P j) (owned j seen).0

        pick : (k : ℕ) → k < n → IsWithin (candidates k) V → has (choice k) V ≡ true
        pick k lt' within' = within-has (choice k) (candidates k) V within' (chosen.fits k lt')

        within : IsWithin (choice i ∷ map answer V) V
        within = (
          pick i lt stuck.tried,
          map-IsWithin answer V V
              (λ j seen. pick (owner P j) (omega (arith, lt, small j seen)) (owned j seen).1),
        )

        apart : NoRepeat (choice i ∷ map answer V)
        apart = (
          elim (Bool-cases (has (choice i) (map answer V))) [
            | inr unseen ↦ unseen
            | inl seen ↦
                let (y, there, e) = has-map answer (choice i) V seen in
                let lower = small y there in
                absurd
                  (omega (arith, lower, chosen.apart (owner P y) i (omega (arith, lower, lt)) lt e))
          ],
          map-NoRepeat answer V stuck.seen.once (λ x y p q e.
              round.paired.once x y (owner P x) (owned x p).0 (
                (owned y q).0
                ∙ ap some (
                    sym (
                      chosen.apart (owner P x) (owner P y) (omega (arith, lt, small x p))
                        (omega (arith, lt, small y q)) e)))),
        )

    -- A search succeeds where there is a choice.
    found-true :
        (fuel i n : ℕ) (choice : ℕ → ℕ) (P : Paired) (continue : Paired → Bool) (found : Found)
        → IsChoice n choice
        → i < n
        → IsRound i P
        → HasMoved candidates i [] P found
        → FailsStuck candidates m bound (candidates i) [] P found
        → ((P' : Paired) → IsRound (i + 1) P' → continue P' ≡ true)
        → next_pair candidates continue found ≡ true
    found-true fuel i n choice P continue (some P', V) chosen lt round moves stuck next =
        next P' (next-IsRound i P P' round moves)
    found-true fuel i n choice P continue (none, V) chosen lt round moves stuck next =
        absurd (stuck-absurd i n choice P V chosen lt round stuck)

    -- Where there is a choice for all elements the loop pairs all.
    pub pair_all-true :
        (i k : ℕ) (choice : ℕ → ℕ) (P : Paired)
        → IsChoice (i + k) choice
        → IsRound i P
        → pair_all candidates (m + 1) i k P ≡ true
    unfolding pair_all
    pair_all-true i zero choice P chosen round = refl
    pair_all-true i (suc k) choice P chosen round =
        found-true (m + 1) i (i + suc k) choice P (pair_all candidates (m + 1) (i + 1) k)
          (augment candidates (m + 1) i [] P) chosen (omega arith) round
          (augment-HasMoved candidates (m + 1) i [] P (round-IsReady i P round))
          (augment-FailsStuck candidates m bound (m + 1) i [] P (record { once = tt; bounded = tt })
            (omega arith))
          (λ P' round'.
            pair_all-true (i + 1) k choice P' (subst (λ n. IsChoice n choice) (longer i k) chosen)
              round')
      where
        longer : (i k : ℕ) → i + suc k ≡ i + 1 + k
        longer i k = omega arith

  -- A search that succeeded, in the loop.
  found-IsRound :
      (i n : ℕ) (P : Paired) (continue : Paired → Bool) (found : Found)
      → IsRound i P
      → HasMoved candidates i [] P found
      → ((P' : Paired) → IsRound (i + 1) P' → continue P' ≡ true → (Q : Paired) × IsRound n Q)
      → next_pair candidates continue found ≡ true
      → (Q : Paired) × IsRound n Q
  found-IsRound i n P continue (some P', V) round moves next h =
      next P' (next-IsRound i P P' round moves) h
  found-IsRound i n P continue (none, V) round moves next h = ground arith

  -- Where the loop says that it has paired all it has.
  pub pair_all-IsRound :
      (fuel i k : ℕ) (P : Paired)
      → IsRound i P
      → pair_all candidates fuel i k P ≡ true
      → (Q : Paired) × IsRound (i + k) Q
  unfolding pair_all
  pair_all-IsRound fuel i zero P round h = (P, subst (λ n. IsRound n P) (same i) round)
    where
      same : (i : ℕ) → i ≡ i + 0
      same i = omega arith
  pair_all-IsRound fuel i (suc k) P round h =
      found-IsRound i (i + suc k) P (pair_all candidates fuel (i + 1) k)
        (augment candidates fuel i [] P) round
        (augment-HasMoved candidates fuel i [] P (round-IsReady i P round))
        (λ P' round' h'.
          let (Q, last) = pair_all-IsRound fuel (i + 1) k P' round' h' in
          (Q, subst (λ n. IsRound n Q) (sym (longer i k)) last))
        h
    where
      longer : (i k : ℕ) → i + suc k ≡ i + 1 + k
      longer i k = omega arith

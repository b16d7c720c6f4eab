-- ===== src/Match/Select/Merge.antt =====
-- internal/match/snapshot.go: one round of the merge takes the least position among the lists.
use mockulus.Prelude.{
  ℕ, suc, ◌+◌, ◌≤◌, ◌<◌, ◌^◌, ◌≡◌, ◌⊎◌, inl, inr, refl, ap, ap₂, ◌∙◌, Bool, true, false, Option,
  none, some, List, [], ◌∷◌, map, if◌then◌else◌, arith, length, All, Bool-cases, Option-cases,
}
use mockulus.Stub.{CompiledStub}
use mockulus.Match.Snapshot.{Int32, to_int32}
use mockulus.Match.Snapshot.Index.{positions}
use mockulus.Match.Select.Defs.{minus_one, pick_step, pick_from, advance}

abbrev pub Selector : Type 0
Selector = CompiledStub → Bool

abbrev pub lists_at : List Selector → ℕ → List CompiledStub → List (List Int32)
lists_at ps k rest = map (λ p. positions p k rest) ps

-- Between the position `k` and the end of what an `int32` holds.
abbrev Later : ℕ → Int32 → Type 0
Later k idx = (k < idx) × (idx < 2 ^ 31)

-- Nothing picked yet, or something later than `k`.
abbrev Open : ℕ → Int32 → Type 0
Open k next = (next ≡ minus_one) ⊎ Later k next

positions-Later :
    (p : Selector) (j k : ℕ) (rest : List CompiledStub)
    → j < k
    → k + length rest ≤ 2 ^ 31
    → All (Later j) (positions p k rest)
unfolding positions
positions-Later p j k [] h b = tt
positions-Later p j k (cs ∷ rest) h b = elim (Bool-cases (p cs)) [
  | inl e ↦ rw e (omega arith, positions-Later p j (k + 1) rest (omega arith) (omega arith))
  | inr e ↦ rw e (positions-Later p j (k + 1) rest (omega arith) (omega arith))
]

step-Open :
    (i k : ℕ) (l : List Int32) (next : Int32) (from : Option ℕ)
    → All (Later k) l
    → Open k next
    → Open k (pick_step i l (next, from)).0
unfolding pick_step
step-Open i k [] next from h o = o
step-Open i k (idx ∷ l) next from h o = ground arith

step_keep :
    (i k : ℕ) (l : List Int32) (from : Option ℕ)
    → All (Later k) l
    → k < 2 ^ 31
    → pick_step i l (k, from) ≡ (k, from)
unfolding pick_step
step_keep i k [] from h b = refl
step_keep i k (idx ∷ l) from h b = ground arith

step_take :
    (i k : ℕ) (l : List Int32) (next : Int32) (from : Option ℕ)
    → k < 2 ^ 31
    → Open k next
    → pick_step i (k ∷ l) (next, from) ≡ (k, some i)
unfolding pick_step
step_take i k l next from b o = ground arith

-- The first selector that takes the stub.
unfoldable pub taker : List Selector → CompiledStub → Option ℕ
taker [] cs = none
taker (p ∷ ps) cs =
    let more = taker ps cs in
    if p cs then some 0 else elim more [ none ↦ none | some m ↦ some (suc m) ]

-- No two of the selectors take the stub.
abbrev pub Exclusive : List Selector → CompiledStub → Type 0
Exclusive [] cs = Unit
Exclusive (p ∷ ps) cs = ((p cs ≡ false) ⊎ (taker ps cs ≡ none)) × Exclusive ps cs

positions-skip :
    (p : Selector) (k : ℕ) (cs : CompiledStub) (rest : List CompiledStub)
    → p cs ≡ false
    → positions p k (cs ∷ rest) ≡ positions p (k + 1) rest
unfolding positions
positions-skip p k cs rest h = rw h

positions-hit :
    (p : Selector) (k : ℕ) (cs : CompiledStub) (rest : List CompiledStub)
    → p cs ≡ true
    → k < 2 ^ 31
    → positions p k (cs ∷ rest) ≡ k ∷ positions p (k + 1) rest
unfolding positions
positions-hit p k cs rest h b = rw h (ap (λ i. i ∷ positions p (k + 1) rest) (small k b))
  where
    small : (k : ℕ) → k < 2 ^ 31 → to_int32 k ≡ k
    small k b = omega arith

taker-none :
    (p : Selector) (ps : List Selector) (cs : CompiledStub)
    → taker (p ∷ ps) cs ≡ none
    → (p cs ≡ false) × (taker ps cs ≡ none)
unfolding taker
taker-none p ps cs h = ground arith

pub lists_at-skip :
    (ps : List Selector) (k : ℕ) (cs : CompiledStub) (rest : List CompiledStub)
    → taker ps cs ≡ none
    → lists_at ps k (cs ∷ rest) ≡ lists_at ps (k + 1) rest
lists_at-skip [] k cs rest h = refl
lists_at-skip (p ∷ ps) k cs rest h =
    let (off, none_more) = taker-none p ps cs h in
    cc (positions-skip p k cs rest off, lists_at-skip ps k cs rest none_more)

taker-cons :
    (p : Selector) (ps : List Selector) (cs : CompiledStub) (m : ℕ)
    → taker (p ∷ ps) cs ≡ some m
    → (p cs ≡ false) ⊎ (taker ps cs ≡ none)
    → ((p cs ≡ true) × (m ≡ 0) × (taker ps cs ≡ none))
      ⊎ ((m' : ℕ) × (p cs ≡ false) × (m ≡ suc m') × (taker ps cs ≡ some m'))
unfolding taker
taker-cons p ps cs m t ex = elim (Bool-cases (p cs)) [
  | inl on ↦ inl (ground arith, ground arith, ground arith)
  | inr off ↦ elim (Option-cases (taker ps cs)) [
    | inl e ↦ absurd (ground arith)
    | inr (m', e) ↦ inr (m', off, ground arith, e)
  ]
]

module _ (k : ℕ) (rest : List CompiledStub) (room : k + 1 + length rest ≤ 2 ^ 31) where
  pick_from-keep :
      (ps : List Selector) (i : ℕ) (from : Option ℕ)
      → pick_from i (lists_at ps (k + 1) rest) (k, from) ≡ (k, from)
  unfolding pick_from
  pick_from-keep [] i from = refl
  pick_from-keep (p ∷ ps) i from =
      ap (pick_from (i + 1) (lists_at ps (k + 1) rest)) (
        step_keep i k (positions p (k + 1) rest) from
          (positions-Later p k (k + 1) rest (omega arith) room) (omega arith))
      ∙ pick_from-keep ps (i + 1) from

  -- The round takes the position `k` where the stub at `k` is in one of the lists.
  pub pick_from-take :
      (ps : List Selector) (cs : CompiledStub) (i m : ℕ) (next : Int32) (from : Option ℕ)
      → Exclusive ps cs
      → taker ps cs ≡ some m
      → Open k next
      → pick_from i (lists_at ps k (cs ∷ rest)) (next, from) ≡ (k, some (i + m))
  unfolding pick_from
  pick_from-take [] cs i m next from ex t o = unfold taker in cc
  pick_from-take (p ∷ ps) cs i m next from ex t o = elim (taker-cons p ps cs m t ex.0) [
    | inl (on, first, none_more) ↦
        rw
          (
            positions-hit p k cs rest on (omega arith),
            lists_at-skip ps k cs rest none_more,
            step_take i k (positions p (k + 1) rest) next from (omega arith) o,
            first,
          )
          (pick_from-keep ps (i + 1) (some i) ∙ ap (λ n. (k, some n)) (omega arith))
    | inr (m', off, e, more) ↦
        rw (positions-skip p k cs rest off, e)
          (pick_from-take ps cs (i + 1) m' _ _ ex.1 more (
              step-Open i k (positions p (k + 1) rest) next from
                (positions-Later p k (k + 1) rest (omega arith) room) o)
            ∙ ap (λ n. (k, some n)) (omega arith))
  ]

  pub advance-taker :
      (ps : List Selector) (cs : CompiledStub) (m : ℕ)
      → Exclusive ps cs
      → taker ps cs ≡ some m
      → advance m (lists_at ps k (cs ∷ rest)) ≡ lists_at ps (k + 1) rest
  unfolding advance
  advance-taker [] cs m ex t = unfold taker in cc
  advance-taker (p ∷ ps) cs m ex t = elim (taker-cons p ps cs m t ex.0) [
    | inl (on, first, none_more) ↦
        ap (λ n. advance n (lists_at (p ∷ ps) k (cs ∷ rest))) first
        ∙ ap₂ (λ l ls. advance 0 (l ∷ ls)) (positions-hit p k cs rest on (omega arith))
            (lists_at-skip ps k cs rest none_more)
    | inr (m', off, e, more) ↦
        ap (λ n. advance n (lists_at (p ∷ ps) k (cs ∷ rest))) e
        ∙ ap₂ (λ l ls. l ∷ ls) (positions-skip p k cs rest off) (advance-taker ps cs m' ex.1 more)
  ]

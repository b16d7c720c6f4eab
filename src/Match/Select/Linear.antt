-- ===== src/Match/Select/Linear.antt =====
-- internal/match/snapshot.go: the merge over the indexes against a scan of every stub.
use mockulus.Prelude.{
  ℕ, zero, suc, ◌+◌, ◌≤◌, ◌<◌, ◌^◌, ◌≡◌, inl, inr, refl, sym, ap, ◌∙◌, Bool, true, false, Option,
  none, some, List, [], ◌∷◌, ◌++◌, arith, ltb, length, All, Option-cases, get_elem?-append,
  length-append,
}
use mathlib.Core.List.{append_assoc}
use mockulus.Stub.{CompiledStub}
use mockulus.Match.Request.{ParsedRequest}
use mockulus.Match.FullMatch.{full_match}
use mockulus.Match.Snapshot.Index.{positions}
use mockulus.Match.Select.Defs.{
  Gate, Outcome, served, unserved, panic, minus_one, Pick, pick_from, advance, stub_at, gate_if,
  try_stub, settle, visit, round, merge,
}
use mockulus.Match.Select.Target.{SameTarget}
use mockulus.Match.Select.Merge.{
  Selector, lists_at, taker, Exclusive, lists_at-skip, pick_from-take, advance-taker,
}

-- Who serves, with the request and the world as they are then.
abbrev pub Verdict : Type 0 → Type 0
Verdict W = Option CompiledStub × ParsedRequest × W

-- The verdict of a run that ended, and did not panic.
abbrev pub verdict : {W : Type 0} → Option (Outcome W) → Option (Verdict W)
verdict none = none
verdict (some (served cs r w seen)) = some (some cs, r, w)
verdict (some (unserved r w seen)) = some (none, r, w)
verdict (some panic) = none

pick_from-nil :
    (k : ℕ) (ps : List Selector) (i : ℕ) (p : Pick) → pick_from i (lists_at ps k []) p ≡ p
unfolding pick_from positions
pick_from-nil k [] i p = refl
pick_from-nil k (q ∷ ps) i p = pick_from-nil k ps (i + 1) p

module _ {W : Type 0} (gate : Option (Gate W)) where
  -- The scan that the indexes save: the first stub, in the list's order, that passes.
  abbrev pub first_or :
      CompiledStub → (ParsedRequest → W → Verdict W) → Bool × ParsedRequest × W → Verdict W
  first_or cs continue (true, r, w) = (some cs, r, w)
  first_or cs continue (false, r, w) = continue r w

  unfoldable pub scan : List CompiledStub → ParsedRequest → W → Verdict W
  scan [] r w = (none, r, w)
  scan (cs ∷ rest) r w = first_or cs (scan rest) (try_stub gate cs r w)

  -- A stub that no selector takes does not match any request with the target of `r0`.
  pub record Covers (ps : List Selector) (r0 : ParsedRequest) (cs : CompiledStub) : Type 0 where
    pub exclusive : Exclusive ps cs
    pub inert :
        taker ps cs ≡ none → (r : ParsedRequest) → SameTarget r0 r → full_match cs r ≡ (false, r)
    pub steady :
        (r : ParsedRequest) (w : W) → SameTarget r0 r → SameTarget r0 (try_stub gate cs r w).1

  settle-scan :
      (cs : CompiledStub) (rest : List CompiledStub) (seen : ℕ)
      (continue : ParsedRequest → W → Option (Outcome W)) (v : Bool × ParsedRequest × W)
      → verdict (continue v.1 v.2) ≡ some (scan rest v.1 v.2)
      → verdict (settle gate cs seen continue v) ≡ some (first_or cs (scan rest) v)
  settle-scan cs rest seen continue (true, r, w) h = refl
  settle-scan cs rest seen continue (false, r, w) h = h

  -- A stub outside every list is passed over by the scan too.
  scan-inert :
      (cs : CompiledStub) (rest : List CompiledStub) (r : ParsedRequest) (w : W)
      → full_match cs r ≡ (false, r)
      → scan (cs ∷ rest) r w ≡ scan rest r w
  unfolding scan try_stub
  scan-inert cs rest r w h = ap (λ v. first_or cs (scan rest) (gate_if gate cs w v)) h

  module _ (ps : List Selector) (ordered : List CompiledStub) where
    -- The round that takes the position `k`, at which `cs` stands.
    merge-round :
        (cs : CompiledStub) (rest : List CompiledStub) (k m fuel seen : ℕ) (r : ParsedRequest)
        (w : W)
        → stub_at ordered k ≡ some cs
        → k + 1 + length rest ≤ 2 ^ 31
        → Exclusive ps cs
        → taker ps cs ≡ some m
        → merge gate (suc fuel) ordered (lists_at ps k (cs ∷ rest)) seen r w
          ≡ settle gate cs
              (seen + 1)
              (merge gate fuel ordered (lists_at ps (k + 1) rest) (seen + 1))
              (try_stub gate cs r w)
    unfolding merge
    merge-round cs rest k m fuel seen r w at room ex hit =
        ap
          (λ p. round gate ordered (merge gate fuel ordered) p (lists_at ps k (cs ∷ rest)) seen r w)
          (pick_from-take k rest room ps cs 0 m minus_one none ex hit (inl refl)
            ∙ ap (λ n. (k, some n)) zero-add-m)
        ∙ ap
            (λ o.
              visit gate o (seen + 1) r w
                (merge gate fuel ordered (advance m (lists_at ps k (cs ∷ rest))) (seen + 1)))
            at
        ∙ ap
            (λ l.
              settle gate cs (seen + 1) (merge gate fuel ordered l (seen + 1))
                (try_stub gate cs r w))
            (advance-taker k rest room ps cs m ex hit)
      where
        zero-add-m : 0 + m ≡ m
        zero-add-m = omega arith

    merge-end :
        (k fuel seen : ℕ) (r : ParsedRequest) (w : W)
        → merge gate (suc fuel) ordered (lists_at ps k []) seen r w ≡ some (unserved r w seen)
    unfolding merge
    merge-end k fuel seen r w =
        ap (λ p. round gate ordered (merge gate fuel ordered) p (lists_at ps k []) seen r w)
          (pick_from-nil k ps 0 (minus_one, none))

    stub_at-front :
        (front rest : List CompiledStub) (cs : CompiledStub) (k : ℕ)
        → front ++ cs ∷ rest ≡ ordered
        → length front ≡ k
        → k < 2 ^ 31
        → stub_at ordered k ≡ some cs
    unfolding stub_at
    stub_at-front front rest cs k whole e room =
        let small : ltb k (2 ^ 31) ≡ true = ground arith in
        rw (small, ← whole, ← e) (get_elem?-append front rest cs)

    module _ (r0 : ParsedRequest) where
      pub merge-scan :
          (rest front : List CompiledStub) (k fuel seen : ℕ) (r : ParsedRequest) (w : W)
          → front ++ rest ≡ ordered
          → length front ≡ k
          → k + length rest ≤ 2 ^ 31
          → length rest < fuel
          → All (Covers ps r0) rest
          → SameTarget r0 r
          → verdict (merge gate fuel ordered (lists_at ps k rest) seen r w) ≡ some (scan rest r w)
      merge-scan rest front k zero seen r w whole e room h cover same = absurd (omega arith)
      merge-scan [] front k (suc fuel) seen r w whole e room h cover same =
          ap verdict (merge-end k fuel seen r w) ∙ (unfold scan in refl)
      merge-scan (cs ∷ rest) front k (suc fuel) seen r w whole e room h cover same =
          let whole' : (front ++ cs ∷ []) ++ rest ≡ ordered =
            append_assoc front (cs ∷ []) rest ∙ whole in
          let e' : length (front ++ cs ∷ []) ≡ k + 1 =
            omega (arith, length-append front (cs ∷ [])) in
          elim (Option-cases (taker ps cs)) [
            | inl out ↦
                ap (λ l. verdict (merge gate (suc fuel) ordered l seen r w))
                  (lists_at-skip ps k cs rest out)
                ∙ merge-scan rest (front ++ cs ∷ []) (k + 1) (suc fuel) seen r w whole' e'
                    (omega arith) (omega arith) cover.1 same
                ∙ ap some (sym (scan-inert cs rest r w (cover.0.inert out r same)))
            | inr (m, hit) ↦
                ap verdict (
                  merge-round cs rest k m fuel seen r w
                    (stub_at-front front rest cs k whole e (omega arith)) (omega arith)
                    cover.0.exclusive hit)
                ∙ settle-scan cs rest (seen + 1) _ (try_stub gate cs r w) (
                    merge-scan rest (front ++ cs ∷ []) (k + 1) fuel (seen + 1)
                      (try_stub gate cs r w).1 (try_stub gate cs r w).2 whole' e' (omega arith)
                      (omega arith) cover.1 (cover.0.steady r w same))
                ∙ (unfold scan in refl)
          ]

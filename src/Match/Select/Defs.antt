-- ===== src/Match/Select/Defs.antt =====
-- internal/match/snapshot.go: `Match`, the merge of five candidate lists.
use mockulus.Prelude.{
  ℕ, zero, suc, ◌+◌, ◌-◌, ◌%◌, ◌^◌, Bool, true, false, ◌||◌, Option, none, some, List, [], ◌∷◌,
  if◌then◌else◌, ltb, ◌==◌, length, get_elem?,
}
use mockulus.Stub.{ScenarioRef, CompiledStub}
use mockulus.Match.Request.{ParsedRequest}
use mockulus.Match.FullMatch.{full_match}
use mockulus.Match.Snapshot.{Snapshot, Int32, any_method, slice_at, index_key}

-- What a gate may read: the request, which memoizes, and a world such as the store.
abbrev pub Gate : Type 0 → Type 0
Gate W = ScenarioRef → ParsedRequest → W → Bool × ParsedRequest × W

-- How `Match` ends: the stub, if any, with the request and the world as they then are and the
-- number of candidates seen. `panic` is an index out of range.
pub data Outcome (W : Type 0) : Type 0 where
  served : (cs : CompiledStub) → (r : ParsedRequest) → (w : W) → (seen : ℕ) → Outcome W
  unserved : (r : ParsedRequest) → (w : W) → (seen : ℕ) → Outcome W
  panic : Outcome W

-- `a < b` on `int32`.
abbrev pub slt : Int32 → Int32 → Bool
slt a b = ltb ((a + 2 ^ 31) % 2 ^ 32) ((b + 2 ^ 31) % 2 ^ 32)

abbrev pub minus_one : Int32
minus_one = 2 ^ 32 - 1

-- `next` and `from`; `none` is the -1 of `from`.
abbrev pub Pick : Type 0
Pick = Int32 × Option ℕ

-- A round of the inner loop. A cursor into a list is the rest of the list from it on.
unfoldable pub pick_step : ℕ → List Int32 → Pick → Pick
pick_step i [] p = p
pick_step i (idx ∷ rest) (next, from) =
    if (next == minus_one) || slt idx next then (idx, some i) else (next, from)

unfoldable pub pick_from : ℕ → List (List Int32) → Pick → Pick
unfolding pick_step
pick_from i [] p = p
pick_from i (l ∷ lists) p = pick_from (i + 1) lists (pick_step i l p)

-- `cursor[from]++`
unfoldable pub advance : ℕ → List (List Int32) → List (List Int32)
advance from [] = []
advance zero ([] ∷ lists) = [] ∷ lists
advance zero ((idx ∷ rest) ∷ lists) = rest ∷ lists
advance (suc from) (l ∷ lists) = l ∷ advance from lists

-- The element of `s.Ordered` at an index: a negative one panics too.
unfoldable pub stub_at : List CompiledStub → Int32 → Option CompiledStub
stub_at ordered next = if ltb next (2 ^ 31) then get_elem? ordered next else none

unfoldable pub candidate_lists : Snapshot → ParsedRequest → List (List Int32)
candidate_lists s r =
    slice_at (index_key r.method r.full_url) s.by_full_url
    ∷ slice_at (index_key any_method r.full_url) s.by_full_url
    ∷ slice_at (index_key r.method r.path) s.by_path
    ∷ slice_at (index_key any_method r.path) s.by_path
    ∷ s.patterns
    ∷ []

module _ {W : Type 0} (gate : Option (Gate W)) where
  -- A stub in no scenario passes, and so does any stub where no gate is installed.
  unfoldable pub gated : CompiledStub → ParsedRequest → W → Bool × ParsedRequest × W
  gated cs r w = elim cs.scenario [
    | none ↦ (true, r, w)
    | some ref ↦ elim gate [ none ↦ (true, r, w) | some g ↦ g ref r w ]
  ]

  abbrev pub gate_if : CompiledStub → W → Bool × ParsedRequest → Bool × ParsedRequest × W
  gate_if cs w (true, r) = gated cs r w
  gate_if cs w (false, r) = (false, r, w)

  -- A candidate's verdict: `fullMatch`, then the gate.
  unfoldable pub try_stub : CompiledStub → ParsedRequest → W → Bool × ParsedRequest × W
  unfolding gated
  try_stub cs r w = gate_if cs w (full_match cs r)

  -- The first stub that passes ends the loop; `continue` is its next round.
  abbrev pub settle :
      CompiledStub
      → ℕ
      → (ParsedRequest → W → Option (Outcome W))
      → Bool × ParsedRequest × W
      → Option (Outcome W)
  settle cs seen continue (true, r, w) = some (served cs r w seen)
  settle cs seen continue (false, r, w) = continue r w

  abbrev pub visit :
      Option CompiledStub
      → ℕ
      → ParsedRequest
      → W
      → (ParsedRequest → W → Option (Outcome W))
      → Option (Outcome W)
  visit none seen r w continue = some panic
  visit (some cs) seen r w continue = settle cs seen continue (try_stub cs r w)

  abbrev pub Loop : Type 0
  Loop = List (List Int32) → ℕ → ParsedRequest → W → Option (Outcome W)

  abbrev pub round : List CompiledStub → Loop → Pick → Loop
  round ordered continue (next, none) lists seen r w = some (unserved r w seen)
  round ordered continue (next, some from) lists seen r w =
      visit (stub_at ordered next) (seen + 1) r w (continue (advance from lists) (seen + 1))

  -- The loop. Fuel bounds the rounds; `none` means that it ran out.
  unfoldable pub merge : ℕ → List CompiledStub → Loop
  merge zero ordered lists seen r w = none
  merge (suc fuel) ordered lists seen r w =
      round ordered (merge fuel ordered) (pick_from 0 lists (minus_one, none)) lists seen r w

  abbrev pub unless_empty : List CompiledStub → Outcome W → Option (Outcome W) → Option (Outcome W)
  unless_empty [] nothing run = some nothing
  unless_empty (cs ∷ rest) nothing run = run

  -- Every round but the last takes a position of the snapshot, so that one round more than there
  -- are stubs is enough.
  unfoldable pub match : Snapshot → ParsedRequest → W → Option (Outcome W)
  unfolding merge candidate_lists
  match s r w =
      unless_empty s.ordered (unserved r w 0)
        (merge (length s.ordered + 1) s.ordered (candidate_lists s r) 0 r w)

-- ===== src/Engine/Scan.antt =====
-- internal/match/snapshot.go with the gate of cmd/mockulus/main.go over the in-memory driver: what a
-- scan of stubs leaves of the store and of the request.
use mockulus.Prelude.{
  ◌≡◌, refl, sym, ◌∙◌, Bool, true, false, ◌||◌, Option, none, some, List, [], ◌∷◌, Text, text_eq,
  text_eq_iff, arith, Bool-cases, Option-cases, inl, inr,
}
use mockulus.Prelude.Map.{lookup, lookup-insert}
use mockulus.Stub.{ScenarioRef, CompiledStub}
use mockulus.Store.Memory.{Store}
use mockulus.Match.Request.{ParsedRequest, memoize_scenario_state}
use mockulus.Match.FullMatch.{bind, full_match}
use mockulus.Match.Select.{gated, gate_if, try_stub}
use mockulus.Match.Select.Keeps.{full_match-keeps}
use mockulus.Match.Select.Linear.{Verdict, first_or, scan}
use mockulus.Scenario.{memory}
use mockulus.Scenario.Gate.{scenario_gate, by_memo, after_state, Remembers, gate-memory}
use mockulus.Scenario.Uncontended.{state_in, state-memory}

-- Whether a store admits a stub's scenario.
abbrev pub admits : Option ScenarioRef → Store → Bool
admits none w = true
admits (some ref) w =
    text_eq ref.required_state [] || text_eq (state_in ref.name w) ref.required_state

-- A request whose memo agrees with the store and for which no read has failed.
pub record IsFine (w : Store) (r : ParsedRequest) : Type 0 where
  pub remembers : Remembers r w
  pub clean : r.scenario_err ≡ none

module _ (w : Store) where
  full_match-IsFine :
      (cs : CompiledStub) (r : ParsedRequest) → IsFine w r → IsFine w (full_match cs r).1
  unfolding bind
  full_match-IsFine =
      full_match-keeps (IsFine w)
        (λ name value r h. record { remembers = h.remembers; clean = h.clean })
        (λ r h. record { remembers = h.remembers; clean = h.clean })

  memoize-Remembers :
      (name : Text) (r : ParsedRequest)
      → Remembers r w
      → Remembers (memoize_scenario_state r name (state_in name w)) w
  memoize-Remembers name r h other found at = grind (
    arith,
    lookup-insert name other (state_in name w) r.scenario_states,
    text_eq_iff name other,
    h other found,
  )

  gate_step :
      (ref : ScenarioRef) (r : ParsedRequest)
      → IsFine w r
      → IsFine w (scenario_gate memory ref r w).1 × (scenario_gate memory ref r w).2 ≡ w
  unfolding scenario_gate by_memo after_state
  gate_step ref r h = elim (Bool-cases (text_eq ref.required_state [])) [
    | inl e ↦ rw e (h, refl)
    | inr e ↦ rw e (elim (Option-cases (lookup ref.name r.scenario_states)) [
      | inl q ↦
          rw (q, state-memory)
            (record { remembers = memoize-Remembers ref.name r h.remembers; clean = h.clean }, refl)
      | inr (x, q) ↦ rw q (h, refl)
    ])
  ]

  -- How a scan of stubs ends: nothing is written, and a stub that serves is admitted.
  abbrev pub HasScanned : Verdict Store → Type 0
  HasScanned (none, r, w') = IsFine w r × w' ≡ w
  HasScanned (some cs, r, w') = IsFine w r × w' ≡ w × admits cs.scenario w ≡ true

  first_or-HasScanned :
      (cs : CompiledStub) (continue : ParsedRequest → Store → Verdict Store)
      (v : Bool × ParsedRequest × Store)
      → IsFine w v.1
      → v.2 ≡ w
      → (v.0 ≡ true → admits cs.scenario w ≡ true)
      → ((r : ParsedRequest) → IsFine w r → HasScanned (continue r w))
      → HasScanned (first_or (some (scenario_gate memory)) cs continue v)
  first_or-HasScanned cs continue (true, r, w') fine same pass go = (fine, same, pass refl)
  first_or-HasScanned cs continue (false, r, w') fine same pass go = rw same (go r fine)

  gated_step :
      (cs : CompiledStub) (r : ParsedRequest)
      → IsFine w r
      → IsFine w (gated (some (scenario_gate memory)) cs r w).1
        × (gated (some (scenario_gate memory)) cs r w).2 ≡ w
        × ((gated (some (scenario_gate memory)) cs r w).0 ≡ true → admits cs.scenario w ≡ true)
  unfolding gated
  gated_step cs r fine = elim (Option-cases cs.scenario) [
    | inl e ↦ rw (e, gated) (fine, refl, λ h. refl)
    | inr (ref, e) ↦
        rw (e, gated)
          (
            (gate_step ref r fine).0,
            (gate_step ref r fine).1,
            λ h. sym (gate-memory ref r w fine.remembers) ∙ h,
          )
  ]

  gate_if-HasScanned :
      (cs : CompiledStub) (continue : ParsedRequest → Store → Verdict Store)
      (v : Bool × ParsedRequest)
      → IsFine w v.1
      → ((r : ParsedRequest) → IsFine w r → HasScanned (continue r w))
      → HasScanned (
          first_or
            (some (scenario_gate memory))
            cs
            continue
            (gate_if (some (scenario_gate memory)) cs w v))
  gate_if-HasScanned cs continue (false, r) fine go = go r fine
  gate_if-HasScanned cs continue (true, r) fine go =
      let (fine', same, pass) = gated_step cs r fine in
      first_or-HasScanned cs continue (gated (some (scenario_gate memory)) cs r w) fine' same pass
        go

  pub scan-HasScanned :
      (l : List CompiledStub) (r : ParsedRequest)
      → IsFine w r
      → HasScanned (scan (some (scenario_gate memory)) l r w)
  unfolding scan try_stub
  scan-HasScanned [] r fine = (fine, refl)
  scan-HasScanned (cs ∷ rest) r fine =
      gate_if-HasScanned cs (scan (some (scenario_gate memory)) rest) (full_match cs r)
        (full_match-IsFine cs r fine) (scan-HasScanned rest)

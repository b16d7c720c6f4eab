-- ===== src/Scenario/Gate.antt =====
-- cmd/mockulus/main.go: `scenarioGate`, the state check of the request path.
use mockulus.Prelude.{
  ◌≡◌, ◌≢◌, refl, ap, Bool, true, false, ◌||◌, Option, none, some, [], Text, text_eq, text_eq_iff,
  text_eq_self, if◌then◌else◌, arith, Bool-cases, Option-cases, inl, inr,
}
use mockulus.Prelude.Map.{lookup, lookup-insert}
use mockulus.Stub.{ScenarioRef}
use mockulus.Store.{Result, ok, err}
use mockulus.Store.Memory.{Store}
use mockulus.Match.Request.{ParsedRequest, ReadError, memoize_scenario_state, fail_scenario_read}
use mockulus.Match.Select.{Gate}
use mockulus.Match.Select.Target.{SameTarget, IsSteady, SameTarget-refl}
use mockulus.Scenario.Defs.{ScenarioStore, memory, state}
use mockulus.Scenario.Uncontended.{state_in, state-memory}

module _ {W : Type 0} (store : ScenarioStore W) where
  unfoldable pub after_state :
      ScenarioRef → ParsedRequest → Result Text × W → Bool × ParsedRequest × W
  after_state ref r (err e, w) = (false, fail_scenario_read r ReadError.unavailable, w)
  after_state ref r (ok found, w) =
      (text_eq found ref.required_state, memoize_scenario_state r ref.name found, w)

  unfoldable pub by_memo : ScenarioRef → ParsedRequest → W → Option Text → Bool × ParsedRequest × W
  unfolding after_state
  by_memo ref r w (some found) = (text_eq found ref.required_state, r, w)
  by_memo ref r w none = after_state ref r (state store ref.name w)

  unfoldable pub scenario_gate : Gate W
  unfolding by_memo
  scenario_gate ref r w =
      if text_eq ref.required_state []
      then (true, r, w)
      else by_memo ref r w (lookup ref.name r.scenario_states)

  after_state-target :
      (ref : ScenarioRef) (r : ParsedRequest) (v : Result Text × W)
      → SameTarget r (after_state ref r v).1
  unfolding after_state fail_scenario_read
  after_state-target ref r (ok found, w) = record { method = refl; path = refl; full_url = refl }
  after_state-target ref r (err e, w) = record { method = refl; path = refl; full_url = refl }

  after_state-ok :
      (ref : ScenarioRef) (r : ParsedRequest) (found : Text) (v : Result Text × W)
      → v.0 ≡ ok found
      → (after_state ref r v).1 ≡ memoize_scenario_state r ref.name found
  unfolding after_state
  after_state-ok ref r found (ok x, w) h = ap (memoize_scenario_state r ref.name) cc
  after_state-ok ref r found (err e, w) h = ground arith

  -- Whatever the store does, the gate leaves the target of a request alone.
  pub gate-IsSteady : IsSteady (some scenario_gate)
  unfolding scenario_gate by_memo
  gate-IsSteady ref r w = elim (Bool-cases (text_eq ref.required_state [])) [
    | inl e ↦ rw e (SameTarget-refl r)
    | inr e ↦ rw e (elim (Option-cases (lookup ref.name r.scenario_states)) [
      | inl q ↦ rw q (after_state-target ref r (state store ref.name w))
      | inr (x, q) ↦ rw q (SameTarget-refl r)
    ])
  ]

  gate-memo :
      (ref : ScenarioRef) (r : ParsedRequest) (w : W) (found : Text)
      → ref.required_state ≢ []
      → lookup ref.name r.scenario_states ≡ none
      → (state store ref.name w).0 ≡ ok found
      → (scenario_gate ref r w).1 ≡ memoize_scenario_state r ref.name found
  unfolding scenario_gate by_memo
  gate-memo ref r w found gated fresh read = elim (Bool-cases (text_eq ref.required_state [])) [
    | inl e ↦ absurd (gated ((text_eq_iff ref.required_state []).0 e))
    | inr e ↦ rw (e, fresh) (after_state-ok ref r found (state store ref.name w) read)
  ]

  memo-gate :
      (ref again : ScenarioRef) (r : ParsedRequest) (w' : W) (found : Text)
      → again.name ≡ ref.name
      → scenario_gate again (memoize_scenario_state r ref.name found) w' ≡ (
        text_eq again.required_state [] || text_eq found again.required_state,
        memoize_scenario_state r ref.name found,
        w',
      )
  unfolding scenario_gate by_memo
  memo-gate ref again r w' found same = elim (Bool-cases (text_eq again.required_state [])) [
    | inl e ↦ rw e refl
    | inr e ↦ rw (e, lookup-insert, same, text_eq_self) refl
  ]

  -- A gate that has read a scenario's state for a request answers every further gate of that
  -- scenario for the request from the state read, without a call of the store.
  pub gate-read_once :
      (ref again : ScenarioRef) (r : ParsedRequest) (w w' : W) (found : Text)
      → ref.required_state ≢ []
      → again.name ≡ ref.name
      → lookup ref.name r.scenario_states ≡ none
      → (state store ref.name w).0 ≡ ok found
      → scenario_gate again (scenario_gate ref r w).1 w' ≡ (
        text_eq again.required_state [] || text_eq found again.required_state,
        (scenario_gate ref r w).1,
        w',
      )
  gate-read_once ref again r w w' found gated same fresh read =
      rw (gate-memo ref r w found gated fresh read) (memo-gate ref again r w' found same)

-- What a request remembers of the scenarios agrees with a store.
abbrev pub Remembers : ParsedRequest → Store → Type 0
Remembers r s =
    (name found : Text) → lookup name r.scenario_states ≡ some found → found ≡ state_in name s

remembered :
    (ref : ScenarioRef) (r : ParsedRequest) (s : Store) (o : Option Text)
    → Remembers r s
    → lookup ref.name r.scenario_states ≡ o
    → (by_memo memory ref r s o).0 ≡ text_eq (state_in ref.name s) ref.required_state
unfolding by_memo
remembered ref r s none h at = rw (state-memory ref.name s) refl
remembered ref r s (some x) h at = ap (λ y. text_eq y ref.required_state) (h ref.name x at)

-- Over the in-memory driver, for a request whose memo agrees with the store, the gate passes
-- exactly where no state is required or the scenario is in the state required.
pub gate-memory :
    (ref : ScenarioRef) (r : ParsedRequest) (s : Store)
    → Remembers r s
    → (scenario_gate memory ref r s).0
      ≡ (text_eq ref.required_state [] || text_eq (state_in ref.name s) ref.required_state)
unfolding scenario_gate
gate-memory ref r s h = elim (Bool-cases (text_eq ref.required_state [])) [
  | inl e ↦ rw e refl
  | inr e ↦ rw e (remembered ref r s (lookup ref.name r.scenario_states) h refl)
]

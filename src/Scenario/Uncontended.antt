-- ===== src/Scenario/Uncontended.antt =====
-- internal/scenario/scenario.go: a client that no other one interferes with.
use mockulus.Prelude.{
  ℕ, ◌≡◌, ◌≢◌, refl, ◌||◌, [], Text, text_eq, text_eq_iff, if◌then◌else◌, arith, ==_iff, Bool-cases,
  Option-cases, inl, inr,
}
use mockulus.Prelude.Map.{lookup, lookup-insert}
use mockulus.Store.{ok, ScenarioState}
use mockulus.Store.Memory.{Store}
use mockulus.Store.Memory.Scenario.{
  write_scenario, get_scenario, insert_scenario, replace_scenario, upsert_scenario,
  delete_all_scenarios, insert_over, replace_over,
}
use mockulus.Match.Snapshot.{scenario_started}
use mockulus.Scenario.Defs.{
  memory, effective, or_started, untargeted, moved, skipped, state, write, after_write, decide,
  after_read, attempts, transition, reset_all, set_state, cas_attempts,
}

-- The state of a scenario in a store.
abbrev pub state_in : Text → Store → Text
state_in name s = effective (lookup name s.scenarios)

-- Reading a state from the driver always succeeds, and gives the initial state to a scenario
-- without a document and to one whose document has an empty state; the store stays as it is.
pub state-memory : (name : Text) (s : Store) → state memory name s ≡ (ok (state_in name s), s)
unfolding state memory get_scenario
state-memory name s = elim (Option-cases (lookup name s.scenarios)) [
  | inl e ↦ rw e refl
  | inr (x, e) ↦ rw e refl
]

attempt-memory :
    (name required : Text) (next : ScenarioState) (s : Store)
    → attempts memory name required next cas_attempts s ≡ (
        if text_eq (state_in name s) required
        then (moved, write_scenario name next s)
        else (skipped, s))
unfolding attempts memory after_read decide write after_write get_scenario insert_scenario
    replace_scenario insert_over replace_over
attempt-memory name required next s = elim (Option-cases (lookup name s.scenarios)) [
  | inl e ↦ rw e (elim (Bool-cases (text_eq scenario_started required)) [
    | inl q ↦ rw (q, e) refl
    | inr q ↦ rw q refl
  ])
  | inr (x, e) ↦ rw e (elim (Bool-cases (text_eq (or_started x.state.state) required)) [
    | inl q ↦ rw (q, e, (==_iff x.cas x.cas).1 refl) refl
    | inr q ↦ rw q refl
  ])
]

-- On a store that no other client writes to, a transition without a target does nothing, one
-- without a required state writes its target, and one with a required state writes its target
-- where the scenario is in that state and leaves the store as it is where it is not: no attempt
-- conflicts.
pub transition-memory :
    (name required target : Text) (now : ℕ) (s : Store)
    → transition memory name required target now s ≡ (
        if text_eq target []
        then (untargeted, s)
        else if text_eq required [] || text_eq (state_in name s) required
        then (moved, write_scenario name (record { state = target; updated_at = now }) s)
        else (skipped, s))
unfolding transition memory upsert_scenario
transition-memory name required target now s = elim (Bool-cases (text_eq target [])) [
  | inl e ↦ rw e refl
  | inr e ↦ rw e (elim (Bool-cases (text_eq required [])) [
    | inl q ↦ rw q refl
    | inr q ↦ rw q (attempt-memory name required (record { state = target; updated_at = now }) s)
  ])
]

-- After a write of a state that is not empty the scenario reads as that state and every other
-- scenario as before, and after a reset each scenario reads as the initial state.
set_state-memory :
    (name other target : Text) (now : ℕ) (s : Store)
    → target ≢ []
    → state_in other (set_state memory name target now s).1
        ≡ (if text_eq name other then target else state_in other s)
      × state_in other (reset_all memory s).1 ≡ scenario_started
unfolding set_state reset_all memory upsert_scenario write_scenario delete_all_scenarios lookup
set_state-memory name other target now s h =
    (rw lookup-insert (ground (arith, text_eq_iff target [])), refl)

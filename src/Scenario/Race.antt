-- ===== src/Scenario/Race.antt =====
-- internal/scenario/scenario.go: a gated transition while other clients write to the same store.
use mockulus.Prelude.{ℕ, List, [], ◌∷◌, Text}
use mockulus.Store.{ok, ScenarioState}
use mockulus.Store.Memory.{Store}
use mockulus.Store.Memory.Scenario.{
  get_scenario, insert_scenario, replace_scenario, upsert_scenario, delete_all_scenarios,
}
use mockulus.Scenario.Defs.{ScenarioStore}

-- A call of another client.
pub data Other : Type 0 where
  inserts upserts : Text → ScenarioState → Other
  replaces : Text → ScenarioState → ℕ → Other
  resets : Other

unfoldable pub apply_other : Other → Store → Store
unfolding insert_scenario upsert_scenario replace_scenario delete_all_scenarios
apply_other (inserts name state) s = (insert_scenario name state s).1
apply_other (upserts name state) s = (upsert_scenario name state s).1
apply_other (replaces name state cas) s = (replace_scenario name state cas s).1
apply_other resets s = delete_all_scenarios s

unfoldable pub apply_others : List Other → Store → Store
unfolding apply_other
apply_others [] s = s
apply_others (o ∷ os) s = apply_others os (apply_other o s)

-- The store, with the calls of the other clients that come before each call of this one.
pub record World : Type 0 where
  pub store : Store
  pub others : List (List Other)

unfoldable pub disturb_by : Store → List (List Other) → World
unfolding apply_others
disturb_by s [] = record { store = s; others = [] }
disturb_by s (os ∷ rest) = record { store = apply_others os s; others = rest }

unfoldable pub disturb : World → World
unfolding disturb_by
disturb w = disturb_by w.store w.others

abbrev pub on_store : {A : Type 0} → (Store → A × Store) → World → A × World
on_store call w = let done = call w.store in (done.0, record w { store = done.1 })

unfoldable pub contended : ScenarioStore World
unfolding disturb
contended = record {
  get = λ name w. on_store (λ s. (get_scenario name s, s)) (disturb w);
  insert = λ name state w. on_store (insert_scenario name state) (disturb w);
  replace = λ name state cas w. on_store (replace_scenario name state cas) (disturb w);
  upsert = λ name state w. on_store (upsert_scenario name state) (disturb w);
  delete_all = λ w. on_store (λ s. (ok tt, delete_all_scenarios s)) (disturb w);
}

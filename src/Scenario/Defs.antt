-- ===== src/Scenario/Defs.antt =====
-- internal/scenario/scenario.go: `Client`, over what a store offers to it. Counters and log lines
-- are left out: how a transition ends says which of them it writes. The clock is an argument.
use mockulus.Prelude.{ℕ, zero, suc, Option, none, some, [], Text, text_eq, if◌then◌else◌}
use mockulus.Store.{StoreError, Result, ok, err, ScenarioState, is_not_found, is_cas_conflict}
use mockulus.Store.Memory.{Store, ScenarioEntry}
use mockulus.Store.Memory.Scenario
use mockulus.Match.Snapshot.{scenario_started}

abbrev pub cas_attempts : ℕ
cas_attempts = 3

-- The interface `ScenarioStore`: each call may change the world.
pub record ScenarioStore (W : Type 0) : Type 0 where
  pub get : Text → W → Result ScenarioEntry × W
  pub insert : Text → ScenarioState → W → Result (Unit {0}) × W
  pub replace : Text → ScenarioState → ℕ → W → Result (Unit {0}) × W
  pub upsert : Text → ScenarioState → W → Result (Unit {0}) × W
  pub delete_all : W → Result (Unit {0}) × W

-- The in-memory driver.
unfoldable pub memory : ScenarioStore Store
unfolding Scenario.get_scenario Scenario.insert_scenario Scenario.replace_scenario
    Scenario.upsert_scenario Scenario.delete_all_scenarios
memory = record {
  get = λ name s. (Scenario.get_scenario name s, s);
  insert = Scenario.insert_scenario;
  replace = Scenario.replace_scenario;
  upsert = Scenario.upsert_scenario;
  delete_all = λ s. (ok tt, Scenario.delete_all_scenarios s);
}

-- A document without a state reads as the initial one.
abbrev pub or_started : Text → Text
or_started state = if text_eq state [] then scenario_started else state

-- The state that a scenario's entry, or its absence, reads as.
abbrev pub effective : Option ScenarioEntry → Text
effective none = scenario_started
effective (some e) = or_started e.state.state

abbrev pub read_state : Result ScenarioEntry → Result Text
read_state (ok e) = ok (effective (some e))
read_state (err e) = if is_not_found e then ok (effective none) else err e

-- How a transition ends. Only `failed` is an error; `skipped` and `abandoned` return nil.
pub data Ending : Type 0 where
  untargeted moved skipped abandoned : Ending
  failed : StoreError → Ending

abbrev pub ending_of : Result (Unit {0}) → Ending
ending_of (ok u) = moved
ending_of (err e) = failed e

module _ {W : Type 0} (store : ScenarioStore W) where
  -- `Client.State`
  unfoldable pub state : Text → W → Result Text × W
  state name w = let r = store.get name w in (read_state r.0, r.1)

  -- The write of an attempt: `InsertScenario` where the document was missing.
  unfoldable pub write : Text → ScenarioState → Option ScenarioEntry → W → Result (Unit {0}) × W
  write name next none w = store.insert name next w
  write name next (some e) w = store.replace name next e.cas w

  -- What follows the write: a lost race is tried again.
  unfoldable pub after_write : (W → Ending × W) → Result (Unit {0}) × W → Ending × W
  after_write again (ok u, w) = (moved, w)
  after_write again (err e, w) = if is_cas_conflict e then again w else (failed e, w)

  unfoldable pub decide :
      Text → Text → ScenarioState → (W → Ending × W) → Option ScenarioEntry → W → Ending × W
  unfolding write after_write
  decide name required next again found w =
      if text_eq (effective found) required
      then after_write again (write name next found w)
      else (skipped, w)

  unfoldable pub after_read :
      Text → Text → ScenarioState → (W → Ending × W) → Result ScenarioEntry × W → Ending × W
  unfolding decide
  after_read name required next again (ok e, w) = decide name required next again (some e) w
  after_read name required next again (err e, w) =
      if is_not_found e then decide name required next again none w else (failed e, w)

  -- The loop, by the attempts left.
  unfoldable pub attempts : Text → Text → ScenarioState → ℕ → W → Ending × W
  attempts name required next zero w = (abandoned, w)
  attempts name required next (suc n) w =
      after_read name required next (attempts name required next n) (store.get name w)

  -- `Client.Transition`
  unfoldable pub transition : Text → Text → Text → ℕ → W → Ending × W
  unfolding attempts
  transition name required target now w =
      let next : ScenarioState = record { state = target; updated_at = now } in
      if text_eq target []
      then (untargeted, w)
      else if text_eq required []
      then (let r = store.upsert name next w in (ending_of r.0, r.1))
      else attempts name required next cas_attempts w

  -- `Client.ResetAll`
  unfoldable pub reset_all : W → Result (Unit {0}) × W
  reset_all w = store.delete_all w

  -- `Client.SetState`
  unfoldable pub set_state : Text → Text → ℕ → W → Result (Unit {0}) × W
  set_state name target now w = store.upsert name (record { state = target; updated_at = now }) w

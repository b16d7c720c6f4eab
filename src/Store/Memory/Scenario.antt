-- ===== src/Store/Memory/Scenario.antt =====
-- internal/store/memory/memory.go: the scenario documents, written by compare-and-swap.
use mockulus.Prelude.{ℕ, Option, none, some, [], Text, if◌then◌else◌, ◌==◌}
use mockulus.Prelude.Map.{lookup, insert}
use mockulus.Store.Defs.{StoreError, Result, ok, err, ScenarioState}
use mockulus.Store.Memory.Defs.{Store, ScenarioEntry, incr}

abbrev pub found_scenario : Option ScenarioEntry → Result ScenarioEntry
found_scenario none = err StoreError.not_found
found_scenario (some e) = ok e

unfoldable pub get_scenario : Text → Store → Result ScenarioEntry
get_scenario name s = found_scenario (lookup name s.scenarios)

-- The write that the three operations share: a fresh token.
unfoldable pub write_scenario : Text → ScenarioState → Store → Store
write_scenario name state s = record s {
  cas_seq = incr s.cas_seq;
  scenarios = insert name (record { state = state; cas = incr s.cas_seq }) s.scenarios;
}

-- The branches of an insertion and of a replacement, by what the map holds.
unfoldable pub insert_over :
    Text → ScenarioState → Store → Option ScenarioEntry → Result (Unit {0}) × Store
unfolding write_scenario
insert_over name state s none = (ok tt, write_scenario name state s)
insert_over name state s (some e) = (err StoreError.cas_conflict, s)

unfoldable pub insert_scenario : Text → ScenarioState → Store → Result (Unit {0}) × Store
unfolding insert_over
insert_scenario name state s = insert_over name state s (lookup name s.scenarios)

unfoldable pub replace_over :
    Text → ScenarioState → ℕ → Store → Option ScenarioEntry → Result (Unit {0}) × Store
unfolding write_scenario
replace_over name state cas s none = (err StoreError.not_found, s)
replace_over name state cas s (some e) =
    if e.cas == cas then (ok tt, write_scenario name state s) else (err StoreError.cas_conflict, s)

unfoldable pub replace_scenario : Text → ScenarioState → ℕ → Store → Result (Unit {0}) × Store
unfolding replace_over
replace_scenario name state cas s = replace_over name state cas s (lookup name s.scenarios)

unfoldable pub upsert_scenario : Text → ScenarioState → Store → Result (Unit {0}) × Store
unfolding write_scenario
upsert_scenario name state s = (ok tt, write_scenario name state s)

unfoldable pub delete_all_scenarios : Store → Store
delete_all_scenarios s = record s { scenarios = [] }

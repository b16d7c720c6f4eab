-- ===== src/Tests/Stateful.antt =====
-- The store, scenarios and the journal on concrete data.
use mockulus.Prelude.{◌≡◌, ◌≢◌, refl, true, false, ◌||◌, none, [], ◌∷◌, codes, text_eq, arith}
use mockulus.Prelude.Map.{lookup, insert}
use mockulus.Store.{StoreError, ok}
use mockulus.Store.Memory.{Store, new, load_all, get_stub, PersistentMapping}
use mockulus.Store.Memory.Scenario.{get_scenario}
use mockulus.Store.Memory.Lifetime.{
  put, run, IsWellFormed, found_result, run-IsWellFormed, load_all-get_stub,
}
use mockulus.Scenario.{memory, failed, after_read, transition, state, cas_attempts}
use mockulus.Scenario.Race.{World, upserts, resets, contended}
use mockulus.Scenario.Tokens.{HasRoom}
use mockulus.Scenario.Gated.{HasEnded, transition-HasEnded}
use mockulus.Scenario.Gate.{scenario_gate, gate-read_once}
use mockulus.Journal
use mockulus.Journal.{Config, Writer, start, reserves, sends, receives, flushes, releases}
use mockulus.Journal.Accounting.{IsAccounted, run-IsAccounted}
use mockulus.Journal.Conservation.{known, entered, run-known}
use mockulus.Tests.Fixtures.{document, request, order_ref, entry_a, entry_b}

abbrev no_rewrite : PersistentMapping
no_rewrite mapping = none

-- A store with a lifetime of 10 in which one stub was put at the time 5.
abbrev ageing : Store
ageing = run no_rewrite (put 5 document ∷ []) (new 10)

run-IsWellFormed_example : IsWellFormed (run no_rewrite (put 5 document ∷ []) (new 10))
run-IsWellFormed_example = run-IsWellFormed no_rewrite (put 5 document ∷ []) 10

load_all-get_stub_example :
    found_result (lookup (codes "1") (load_all 16 ageing).1.stubs) ≡ get_stub 16 (codes "1") ageing
load_all-get_stub_example =
    load_all-get_stub 16 (codes "1") ageing (run-IsWellFormed no_rewrite (put 5 document ∷ []) 10)

paid : codes "paid" ≢ []
paid h = ground arith

started : codes "Started" ≢ []
started h = ground arith

-- Another client moves the scenario after the read, and resets all after the second read.
abbrev disputed : World
disputed = record {
  store = new 0;
  others =
      []
      ∷ (upserts (codes "order") (record { state = codes "Started"; updated_at = 1 }) ∷ [])
      ∷ []
      ∷ (resets ∷ [])
      ∷ [];
}

disputed-HasRoom : HasRoom cas_attempts disputed
unfolding lookup
disputed-HasRoom = record { issued = λ name e h. ground arith; room = omega arith }

transition-HasEnded_example :
    HasEnded disputed
      (codes "order")
      (codes "Started")
      (record { state = codes "paid"; updated_at = 3 })
      (transition contended (codes "order") (codes "Started") (codes "paid") 3 disputed)
transition-HasEnded_example =
    transition-HasEnded (codes "order") (codes "Started") (codes "paid") 3 disputed paid started
      disputed-HasRoom

unread : lookup (codes "order") request.scenario_states ≡ none
unfolding lookup
unread = refl

reads : (state memory (codes "order") (new 0)).0 ≡ ok (codes "Started")
unfolding state memory lookup
reads = refl

gate-read_once_example :
    scenario_gate memory order_ref (scenario_gate memory order_ref request (new 0)).1 (new 9) ≡ (
      text_eq (codes "Started") [] || text_eq (codes "Started") (codes "Started"),
      (scenario_gate memory order_ref request (new 0)).1,
      new 9,
    )
gate-read_once_example =
    gate-read_once memory order_ref order_ref request (new 0) (new 9) (codes "Started") started refl
      unread reads

abbrev small : Config
small = record { buffer_entries = 1; buffer_bytes = 4; batch_size = 2 }

run-IsAccounted_example : IsAccounted small (
    Journal.run small
      (reserves entry_a
        ∷ reserves entry_b
        ∷ sends 0
        ∷ receives 0
        ∷ flushes 0 true
        ∷ releases 0
        ∷ [])
      (start 1))
run-IsAccounted_example =
    run-IsAccounted small 1 (
      reserves entry_a ∷ reserves entry_b ∷ sends 0 ∷ receives 0 ∷ flushes 0 true ∷ releases 0 ∷ [])

run-known_example :
    known (
      Journal.run small
        (reserves entry_a ∷ reserves entry_b ∷ sends 0 ∷ receives 0 ∷ flushes 0 false ∷ [])
        (start 1))
    ≡ entered (reserves entry_a ∷ reserves entry_b ∷ sends 0 ∷ receives 0 ∷ flushes 0 false ∷ [])
run-known_example =
    run-known small 1
      (reserves entry_a ∷ reserves entry_b ∷ sends 0 ∷ receives 0 ∷ flushes 0 false ∷ [])

-- The transition fails, since the document of its second read is gone.
reset_race :
    (transition contended (codes "order") (codes "Started") (codes "paid") 3 disputed).0
    ≡ failed StoreError.not_found
unfolding transition contended text_eq after_read get_scenario lookup insert
reset_race = refl

-- ===== src/Scenario/Gated.antt =====
-- internal/scenario/scenario.go: how a gated transition ends, whatever other clients do.
use mockulus.Prelude.{
  ℕ, zero, suc, ◌≡◌, ◌≢◌, false, refl, sym, ◌∙◌, ap, Option, none, some, [], Text, text_eq,
  text_eq_iff, arith, ◌==◌, ==_iff, Bool-cases, inl, inr,
}
use mockulus.Prelude.Map.{lookup}
use mockulus.Store.{StoreError, ScenarioState}
use mockulus.Store.Memory.{ScenarioEntry}
use mockulus.Store.Memory.Scenario.{
  write_scenario, get_scenario, insert_scenario, replace_scenario, insert_over, replace_over,
  found_scenario,
}
use mockulus.Match.Snapshot.{scenario_started}
use mockulus.Scenario.Defs.{
  effective, Ending, untargeted, moved, skipped, abandoned, failed, write, after_write, decide,
  after_read, attempts, cas_attempts, transition,
}
use mockulus.Scenario.Uncontended.{state_in}
use mockulus.Scenario.Race.{World, disturb, contended, on_store}
use mockulus.Scenario.Tokens.{Later, HasRoom, disturb-room}

-- The world after some rounds of the other clients' calls, of which one comes before each call of this
-- client that reaches the store.
abbrev pub after_rounds : ℕ → World → World
after_rounds zero w = w
after_rounds (suc n) w = after_rounds n (disturb w)

-- A world in which nothing has been written but by the other clients.
abbrev pub IsUntouched : World → World → Type 0
IsUntouched start w = (n : ℕ) × (w ≡ after_rounds n start)

-- What each ending says of the world at the end, by that at the start: a move is one write of this
-- client, to the store as the calls of the others had left it, in which the scenario was in the
-- required state; any other ending leaves the store as their calls left it, a skip with the scenario in
-- another state and a failure with the document to replace gone.
abbrev pub HasEnded : World → Text → Text → ScenarioState → Ending × World → Type 0
HasEnded start name required next (untargeted, w) = ⊥
HasEnded start name required next (moved, w) =
    (v : World) × IsUntouched start v
    × state_in name v.store ≡ required
    × w ≡ record v { store = write_scenario name next v.store }
HasEnded start name required next (skipped, w) =
    IsUntouched start w × state_in name w.store ≢ required
HasEnded start name required next (abandoned, w) = IsUntouched start w
HasEnded start name required next (failed e, w) =
    IsUntouched start w × e ≡ StoreError.not_found × lookup name w.store.scenarios ≡ none

after_rounds-disturb : (n : ℕ) (w : World) → disturb (after_rounds n w) ≡ after_rounds (suc n) w
after_rounds-disturb zero w = refl
after_rounds-disturb (suc n) w = after_rounds-disturb n (disturb w)

disturb-IsUntouched : (start w : World) → IsUntouched start w → IsUntouched start (disturb w)
disturb-IsUntouched start w (n, e) = (suc n, ap disturb e ∙ after_rounds-disturb n start)

module _ (start : World) (name required : Text) (next : ScenarioState) where
  insert-HasEnded :
      (n : ℕ) (again : World → Ending × World) (w : World) (o : Option ScenarioEntry)
      → ((v : World)
          → HasRoom n v
          → IsUntouched start v
          → HasEnded start name required next (again v))
      → HasRoom n w
      → IsUntouched start w
      → scenario_started ≡ required
      → lookup name w.store.scenarios ≡ o
      → HasEnded start name required next
          (after_write contended again (on_store (λ s. insert_over name next s o) w))
  unfolding after_write insert_over
  insert-HasEnded n again w none ih room clean is at = (w, clean, rw at is, refl)
  insert-HasEnded n again w (some e) ih room clean is at = ih w room clean

  replace-HasEnded :
      (n : ℕ) (again : World → Ending × World) (v w : World) (e : ScenarioEntry)
      (o : Option ScenarioEntry)
      → ((v : World)
          → HasRoom n v
          → IsUntouched start v
          → HasEnded start name required next (again v))
      → HasRoom n v
      → HasRoom n w
      → IsUntouched start w
      → Later v.store w.store
      → lookup name v.store.scenarios ≡ some e
      → effective (some e) ≡ required
      → lookup name w.store.scenarios ≡ o
      → HasEnded start name required next
          (after_write contended again (on_store (λ s. replace_over name next e.cas s o) w))
  unfolding after_write replace_over
  replace-HasEnded n again v w e none ih before room clean later read is at = (clean, refl, at)
  replace-HasEnded n again v w e (some e') ih before room clean later read is at =
      elim (Bool-cases (e'.cas == e.cas)) [
        | inl q ↦ rw q (
            let same : e'.cas ≡ e.cas = (==_iff e'.cas e.cas).0 q in
            let old = later.kept name e' at (omega (arith, same, before.issued name e read)) in
            (w, clean, ap effective (at ∙ sym old ∙ read) ∙ is, refl))
        | inr q ↦ rw q (ih w room clean)
      ]

  -- The write of an attempt, on the world in which the read was made.
  write-HasEnded :
      (n : ℕ) (again : World → Ending × World) (v : World) (found : Option ScenarioEntry)
      → ((v : World)
          → HasRoom n v
          → IsUntouched start v
          → HasEnded start name required next (again v))
      → HasRoom n v
      → IsUntouched start v
      → lookup name v.store.scenarios ≡ found
      → effective found ≡ required
      → HasEnded start name required next
          (after_write contended again (write contended name next found v))
  unfolding write contended insert_scenario replace_scenario
  write-HasEnded n again v none ih room clean read is =
      let (later, room') = disturb-room n v room in
      insert-HasEnded n again (disturb v) (lookup name (disturb v).store.scenarios) ih room'
        (disturb-IsUntouched start v clean) is refl
  write-HasEnded n again v (some e) ih room clean read is =
      let (later, room') = disturb-room n v room in
      replace-HasEnded n again v (disturb v) e (lookup name (disturb v).store.scenarios) ih room
        room' (disturb-IsUntouched start v clean) later read is refl

  other_state : (state : Text) → text_eq state required ≡ false → state ≢ required
  other_state state q same = ground (arith, text_eq_iff state required)

  decide-HasEnded :
      (n : ℕ) (again : World → Ending × World) (v : World) (found : Option ScenarioEntry)
      → ((v : World)
          → HasRoom n v
          → IsUntouched start v
          → HasEnded start name required next (again v))
      → HasRoom n v
      → IsUntouched start v
      → lookup name v.store.scenarios ≡ found
      → HasEnded start name required next (decide contended name required next again found v)
  unfolding decide
  decide-HasEnded n again v found ih room clean read =
      elim (Bool-cases (text_eq (effective found) required)) [
        | inl q ↦ rw q (
            write-HasEnded n again v found ih room clean read
              ((text_eq_iff (effective found) required).0 q))
        | inr q ↦
            rw q (clean, λ same. other_state (effective found) q (sym (ap effective read) ∙ same))
      ]

  read-HasEnded :
      (n : ℕ) (again : World → Ending × World) (v : World) (found : Option ScenarioEntry)
      → ((v : World)
          → HasRoom n v
          → IsUntouched start v
          → HasEnded start name required next (again v))
      → HasRoom n v
      → IsUntouched start v
      → lookup name v.store.scenarios ≡ found
      → HasEnded start name required next
          (after_read contended name required next again (found_scenario found, v))
  unfolding after_read
  read-HasEnded n again v none ih room clean read =
      decide-HasEnded n again v none ih room clean read
  read-HasEnded n again v (some e) ih room clean read =
      decide-HasEnded n again v (some e) ih room clean read

  attempts-HasEnded :
      (n : ℕ) (w : World)
      → HasRoom n w
      → IsUntouched start w
      → HasEnded start name required next (attempts contended name required next n w)
  unfolding attempts contended get_scenario
  attempts-HasEnded zero w room clean = clean
  attempts-HasEnded (suc n) w room clean =
      let (later, room') = disturb-room (suc n) w room in
      let less : HasRoom n (disturb w) = record {
        issued = room'.issued;
        room = omega (arith, room'.room);
      } in
      read-HasEnded n (attempts contended name required next n) (disturb w)
        (lookup name (disturb w).store.scenarios) (attempts-HasEnded n) less
        (disturb-IsUntouched start w clean) refl

-- However the calls of other clients interleave with those of a transition with a target and a
-- required state, fewer than 2 ^ 64 writes in all: it writes at most once, and then to the store as the
-- calls of the others had left it, with the scenario in the required state there; it skips only where
-- the scenario is in another state, and it fails only where another client has removed the document
-- that it replaces.
pub transition-HasEnded :
    (name required target : Text) (now : ℕ) (w : World)
    → target ≢ []
    → required ≢ []
    → HasRoom cas_attempts w
    → HasEnded w name required
        (record { state = target; updated_at = now })
        (transition contended name required target now w)
unfolding transition
transition-HasEnded name required target now w full gated room =
    elim (Bool-cases (text_eq target [])) [
      | inl q ↦ absurd (full ((text_eq_iff target []).0 q))
      | inr q ↦ rw q (elim (Bool-cases (text_eq required [])) [
        | inl p ↦ absurd (gated ((text_eq_iff required []).0 p))
        | inr p ↦ rw p (
            attempts-HasEnded w name required (record { state = target; updated_at = now })
              cas_attempts w room (0, refl))
      ])
    ]

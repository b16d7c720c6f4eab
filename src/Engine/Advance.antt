-- ===== src/Engine/Advance.antt =====
-- internal/match/engine.go: `ServeHTTP` over the in-memory driver, with the gate of
-- cmd/mockulus/main.go and the transitions of internal/scenario/scenario.go.
use mockulus.Prelude.{
  ℕ, ◌≤◌, ◌^◌, ◌≡◌, ◌≢◌, refl, sym, ap, ◌∙◌, subst, true, false, Option, none, some, List, [], ◌∷◌,
  Text, text_eq, if◌then◌else◌, arith, length, Bool-cases, inl, inr,
}
use mockulus.Prelude.Map.{lookup}
use mockulus.Stub.{ScenarioRef, CompiledStub}
use mockulus.Store.Memory.{Store}
use mockulus.Store.Memory.Scenario.{write_scenario}
use mockulus.Match.Request.{ParsedRequest}
use mockulus.Match.Snapshot.{any_method}
use mockulus.Match.Select.{Outcome, served, unserved, panic}
use mockulus.Match.Select.Linear.{Verdict, verdict}
use mockulus.Match.Select.Correct.{IsIndexed, match-scan}
use mockulus.Scenario.{memory, transition}
use mockulus.Scenario.Gate.{scenario_gate, Remembers, gate-IsSteady}
use mockulus.Scenario.Uncontended.{transition-memory}
use mockulus.Engine.Body.{Body, read, too_large, Incoming, read_body}
use mockulus.Engine.Scan.{admits, IsFine, HasScanned, scan-HasScanned}
use mockulus.Engine.Defs.{
  Engine, Answered, body_too_large, crashed, scenario_unavailable, stub_served, no_stubs,
  not_matched, diagnostic, Reply, transition_with, advance_scenario, unmatched_answer,
  answer_unmatched, answer_stub, after_match, settle_match, after_body, serve_http, finish,
}

-- The store once a stub of the scenario has served.
abbrev pub moved_by : ℕ → Option ScenarioRef → Store → Store
moved_by now none w = w
moved_by now (some ref) w =
    if text_eq ref.new_state []
    then w
    else write_scenario ref.name (record { state = ref.new_state; updated_at = now }) w

some_verdict : {x y : Verdict Store} → some x ≡ some y → x ≡ y
some_verdict h = cc

-- What an answer says of the store before and after it.
abbrev pub HasAnswered : ℕ → Store → Answered → Store → Type 0
HasAnswered now w (stub_served cs) w' =
    admits cs.scenario w ≡ true × w' ≡ moved_by now cs.scenario w
HasAnswered now w body_too_large w' = w' ≡ w
HasAnswered now w no_stubs w' = w' ≡ w
HasAnswered now w not_matched w' = w' ≡ w
HasAnswered now w (diagnostic s r) w' = w' ≡ w
HasAnswered now w (scenario_unavailable e) w' = ⊥
HasAnswered now w crashed w' = ⊥

-- The scenario client of the in-memory driver as the engine's transitioner.
abbrev pub memory_transition : ℕ → Text → Text → Text → Store → Store
memory_transition now name required target w = (transition memory name required target now w).1

module _ (now : ℕ) (w : Store) where
  transition-moved_by :
      (ref : ScenarioRef)
      → admits (some ref) w ≡ true
      → text_eq ref.new_state [] ≡ false
      → memory_transition now ref.name ref.required_state ref.new_state w
        ≡ write_scenario ref.name (record { state = ref.new_state; updated_at = now }) w
  transition-moved_by ref pass full =
      ap (λ v. v.1) (transition-memory ref.name ref.required_state ref.new_state now w)
      ∙ rw (full, pass) refl

  module _ (e : Engine Store) (wired : e.transitioner ≡ some (memory_transition now)) where
    advance_scenario-moved_by :
        (o : Option ScenarioRef) → admits o w ≡ true → advance_scenario e o w ≡ moved_by now o w
    unfolding advance_scenario transition_with
    advance_scenario-moved_by none pass = refl
    advance_scenario-moved_by (some ref) pass = elim (Bool-cases (text_eq ref.new_state [])) [
      | inl q ↦ rw q refl
      | inr q ↦ rw (q, wired, transition-moved_by ref pass q) refl
    ]

    unmatched-HasAnswered :
        (l : List CompiledStub) (r : ParsedRequest) → HasAnswered now w (unmatched_answer e l r) w
    unfolding unmatched_answer
    unmatched-HasAnswered [] r = refl
    unmatched-HasAnswered (cs ∷ l) r = elim (Bool-cases e.cfg.diagnostics_on_unmatched) [
      | inl q ↦ rw q refl
      | inr q ↦ rw q refl
    ]

    abbrev Says : (Reply × ℕ) × Store → Type 0
    Says (reply, w') = HasAnswered now w reply.0.answer w'

    after_match-Says :
        (body : Text) (count seen : ℕ) (v : Verdict Store)
        → HasScanned w v
        → Says (after_match e body count v.1.scenario_err v.0 v.1 v.2 seen)
    unfolding after_match answer_unmatched answer_stub finish
    after_match-Says body count seen (some cs, r, w') (fine, same, pass) =
        rw (fine.clean, same) (pass, advance_scenario-moved_by cs.scenario pass)
    after_match-Says body count seen (none, r, w') (fine, same) =
        rw (fine.clean, same) (unmatched-HasAnswered e.snapshot.ordered _)

    settle-Says :
        (body : Text) (count : ℕ) (o : Option (Outcome Store)) (v : Verdict Store)
        → verdict o ≡ some v
        → HasScanned w v
        → Says (settle_match e body count w o)
    unfolding settle_match
    settle-Says body count (some (served cs r w' seen)) v h scanned =
        after_match-Says body count seen (some cs, r, w')
          (subst (HasScanned w) (sym (some_verdict h)) scanned)
    settle-Says body count (some (unserved r w' seen)) v h scanned =
        after_match-Says body count seen (none, r, w')
          (subst (HasScanned w) (sym (some_verdict h)) scanned)
    settle-Says body count (some panic) v h scanned = ground arith
    settle-Says body count none v h scanned = ground arith

fresh-Remembers : (w : Store) (r : ParsedRequest) → r.scenario_states ≡ [] → Remembers r w
unfolding lookup
fresh-Remembers w r fresh name found h = absurd (none-some (sym (ap (lookup name) fresh) ∙ h))
  where
    none-some : {x : Text} → none ≢ some x
    none-some q = ground arith

-- Over the in-memory driver, with the scenario gate and the scenario client of that driver, serving
-- an indexed snapshot of at most 2 ^ 31 stubs, where a parsed request has an empty memo, no failed
-- read and a method that is not the literal ANY: a request is never answered as one whose scenario
-- is unavailable, and the match does not panic. Where a stub is served, the store admits it, and the
-- store then has the stub's new state, if it names one, and is otherwise as it was; a request that
-- is not matched, or is too large, leaves the store as it was.
pub serve_http-HasAnswered :
    (now : ℕ) (e : Engine Store) (b : Incoming) (count : ℕ) (w : Store)
    → e.gate ≡ some (scenario_gate memory)
    → e.transitioner ≡ some (memory_transition now)
    → IsIndexed e.snapshot
    → length e.snapshot.ordered ≤ 2 ^ 31
    → ((body : Text) → (e.acquire body).scenario_states ≡ [])
    → ((body : Text) → (e.acquire body).scenario_err ≡ none)
    → ((body : Text) → (e.acquire body).method ≢ any_method)
    → HasAnswered now w (serve_http e b count w).0.0.answer (serve_http e b count w).1
unfolding serve_http after_body
serve_http-HasAnswered now e b count w gate wired ix room fresh clean ne =
    by_body (read_body e.cfg.max_body_bytes b)
  where
    fine : (body : Text) → IsFine w (e.acquire body)
    fine body = record {
      remembers = fresh-Remembers w (e.acquire body) (fresh body);
      clean = clean body;
    }

    by_body : (body : Body) → Says now w e wired (after_body e body count w)
    by_body too_large = refl
    by_body (read body) = rw gate (
        settle-Says now w e wired body count _ _
          (match-scan (some (scenario_gate memory)) e.snapshot (e.acquire body) w ix room (ne body)
            (gate-IsSteady memory))
          (scan-HasScanned w e.snapshot.ordered (e.acquire body) (fine body)))

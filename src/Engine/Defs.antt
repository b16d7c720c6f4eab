-- ===== src/Engine/Defs.antt =====
-- internal/match/engine.go: `ServeHTTP`, `transition`, `finish` and `accessLog`. The spans of a tracer
-- and the durations are left out; rendering a response is an argument that says its status.
use mockulus.Prelude.{
  ℕ, ◌+◌, ◌%◌, ◌^◌, Bool, true, false, not, ◌&&◌, Option, none, some, List, [], Text, text_eq,
  if◌then◌else◌, ltb, ◌==◌,
}
use mockulus.Prelude.Int.{ℤ}
use mockulus.Stub.{ScenarioRef, CompiledStub}
use mockulus.Match.Request.{ParsedRequest, ReadError}
use mockulus.Match.Snapshot.{Snapshot, Settings}
use mockulus.Match.Select.{Gate, Outcome, served, unserved, panic, match}
use mockulus.Engine.Body.{Incoming, Body, read, too_large, read_body}

-- What the engine reads of its configuration. The sample is the bits of a `uint64`.
pub record Config : Type 0 where
  pub max_body_bytes : ℤ
  pub diagnostics_on_unmatched : Bool
  pub log_requests : Bool
  pub request_sample_n : ℕ

-- The engine over a world that the gate and the transitioner may change. `acquire` parses the
-- request around a body, and `write` says the status with which a stub's response is written.
pub record Engine (W : Type 0) : Type 0 where
  pub cfg : Config
  pub snapshot : Snapshot
  pub gate : Option (Gate W)
  pub transitioner : Option (Text → Text → Text → W → W)
  pub recording : Bool
  pub acquire : Text → ParsedRequest
  pub write : CompiledStub → ParsedRequest → Option Settings → ℕ

-- What is answered. `crashed` is a panic in the match.
pub data Answered : Type 0 where
  body_too_large crashed : Answered
  scenario_unavailable : ReadError → Answered
  stub_served : CompiledStub → Answered
  no_stubs not_matched : Answered
  diagnostic : Snapshot → ParsedRequest → Answered

-- An entry for the journal: the body, the stub matched and the status.
pub record Recorded : Type 0 where
  pub body : Text
  pub matched : Option CompiledStub
  pub status : ℕ

-- The answer with its bookkeeping: the labels of the metrics, the entry and whether a line is logged.
pub record Reply : Type 0 where
  pub answer : Answered
  pub matched : Bool
  pub status : ℕ
  pub candidates : ℕ
  pub recorded : Option Recorded
  pub logged : Bool

abbrev pub has_stub : Option CompiledStub → Bool
has_stub none = false
has_stub (some cs) = true

-- `accessLog`: whether a line is written, and the counter of requests.
unfoldable pub access_log : Config → ℕ → Bool × ℕ
access_log cfg count =
    let n = (count + 1) % 2 ^ 64 in
    if not cfg.log_requests
    then (false, count)
    else if ltb 1 cfg.request_sample_n && not (n % cfg.request_sample_n == 0)
    then (false, n)
    else (true, n)

module _ {W : Type 0} (e : Engine W) where
  -- `finish`
  unfoldable pub finish : Answered → Text → Option CompiledStub → ℕ → ℕ → ℕ → Reply × ℕ
  unfolding access_log
  finish answer body cs status candidates count =
      let log = access_log e.cfg count in
      (
        record {
          answer = answer;
          matched = has_stub cs;
          status = status;
          candidates = candidates;
          recorded =
              if e.recording
              then some (record { body = body; matched = cs; status = status })
              else none;
          logged = log.0;
        },
        log.1,
      )

  -- `transition`: an error of it is only counted.
  unfoldable pub transition_with : Option (Text → Text → Text → W → W) → ScenarioRef → W → W
  transition_with none ref w = w
  transition_with (some t) ref w = t ref.name ref.required_state ref.new_state w

  unfoldable pub advance_scenario : Option ScenarioRef → W → W
  unfolding transition_with
  advance_scenario none w = w
  advance_scenario (some ref) w =
      if text_eq ref.new_state [] then w else transition_with e.transitioner ref w

  unfoldable pub unmatched_answer : List CompiledStub → ParsedRequest → Answered
  unmatched_answer [] r = no_stubs
  unmatched_answer _ r =
      if e.cfg.diagnostics_on_unmatched then diagnostic e.snapshot r else not_matched

  unfoldable pub answer_unmatched : Text → ParsedRequest → ℕ → ℕ → Reply × ℕ
  unfolding finish unmatched_answer
  answer_unmatched body r seen count =
      finish (unmatched_answer e.snapshot.ordered r) body none 404 seen count

  unfoldable pub answer_stub : Text → CompiledStub → ParsedRequest → ℕ → ℕ → Reply × ℕ
  unfolding finish
  answer_stub body cs r seen count =
      finish (stub_served cs) body (some cs) (e.write cs r e.snapshot.settings) seen count

  -- What follows the match: a failed read of a scenario wins over whatever was matched.
  unfoldable pub after_match :
      Text → ℕ → Option ReadError → Option CompiledStub → ParsedRequest → W → ℕ → (Reply × ℕ) × W
  unfolding finish advance_scenario answer_unmatched answer_stub
  after_match body count (some failure) cs r w seen =
      (finish (scenario_unavailable failure) body none 500 seen count, w)
  after_match body count none (some cs) r w seen =
      (answer_stub body cs r seen count, advance_scenario cs.scenario w)
  after_match body count none none r w seen = (answer_unmatched body r seen count, w)

  abbrev pub crash : ℕ → W → (Reply × ℕ) × W
  crash count w = (
    (
      record {
        answer = crashed;
        matched = false;
        status = 0;
        candidates = 0;
        recorded = none;
        logged = false;
      },
      count,
    ),
    w,
  )

  unfoldable pub settle_match : Text → ℕ → W → Option (Outcome W) → (Reply × ℕ) × W
  unfolding after_match
  settle_match body count w (some (served cs r w' seen)) =
      after_match body count r.scenario_err (some cs) r w' seen
  settle_match body count w (some (unserved r w' seen)) =
      after_match body count r.scenario_err none r w' seen
  settle_match body count w (some panic) = crash count w
  settle_match body count w none = crash count w

  unfoldable pub after_body : Body → ℕ → W → (Reply × ℕ) × W
  unfolding settle_match
  after_body (read body) count w =
      settle_match body count w (match e.gate e.snapshot (e.acquire body) w)
  after_body too_large count w = (
    (
      record {
        answer = body_too_large;
        matched = false;
        status = 413;
        candidates = 0;
        recorded = none;
        logged = false;
      },
      count,
    ),
    w,
  )

  -- `ServeHTTP`, by the body and the counter of requests logged.
  unfoldable pub serve_http : Incoming → ℕ → W → (Reply × ℕ) × W
  unfolding after_body
  serve_http b count w = after_body (read_body e.cfg.max_body_bytes b) count w

-- ===== src/Tests/Serving.antt =====
-- The handler of the mock port on concrete requests.
use mockulus.Prelude.{
  ℕ, ◌+◌, ◌<◌, ◌≤◌, ◌^◌, ◌≡◌, ◌≢◌, refl, inl, true, false, none, some, Text, codes, length, take,
  ltb, if◌then◌else◌, arith,
}
use mockulus.Prelude.Int.{pos}
use mockulus.Prelude.Sort
use mockulus.Match.Snapshot.{any_method, add_stub, build_snapshot}
use mockulus.Match.Select.Correct.{build-IsIndexed}
use mockulus.Scenario.{memory}
use mockulus.Scenario.Gate.{scenario_gate}
use mockulus.Store.Memory.{Store, new}
use mockulus.Engine.{Incoming, read, too_large, read_body, Engine, serve_http}
use mockulus.Engine.Capped.{IsCapped, read_body-IsCapped, read_body-content}
use mockulus.Engine.Advance.{HasAnswered, memory_transition, serve_http-HasAnswered}
use mockulus.Tests.Fixtures.{request, stubs, demo}

-- Five bytes, with their length declared.
abbrev hello : Incoming
hello = record {
  present = true;
  content_length = pos 5;
  read_all = some (codes "hello");
  read_full = λ n. some (take n (codes "hello"));
  read_limited = λ n. some (take n (codes "hello"));
}

four : 0 < 4
four = omega arith

given : (n : ℕ) (t : Text) → some (take n (codes "hello")) ≡ some t → t ≡ take n (codes "hello")
given n t h = cc

read_body-IsCapped_example : IsCapped 4 (codes "hello") (read_body (pos 4) hello)
read_body-IsCapped_example = read_body-IsCapped 4 (codes "hello") hello four given given

small_cap : 4 + 1 < 2 ^ 63
small_cap = omega arith

read_body-content_example :
    read_body (pos 4) hello
    ≡ (if ltb 4 (length (codes "hello")) then too_large else read (codes "hello"))
read_body-content_example =
    read_body-content 4 (codes "hello") hello four small_cap refl (inl refl) refl refl

abbrev engine : Engine Store
engine = record {
  cfg = record {
    max_body_bytes = pos 10;
    diagnostics_on_unmatched = false;
    log_requests = true;
    request_sample_n = 2;
  };
  snapshot = demo;
  gate = some (scenario_gate memory);
  transitioner = some (memory_transition 7);
  recording = true;
  acquire = λ body. record request { raw_body = body };
  write = λ cs r settings. cs.response.status;
}

few : length engine.snapshot.ordered ≤ 2 ^ 31
unfolding build_snapshot Sort.sort add_stub
few = omega arith

is_get : codes "GET" ≢ any_method
is_get h = ground arith

serve_http-HasAnswered_example :
    HasAnswered 7
      (new 0)
      (serve_http engine hello 0 (new 0)).0.0.answer
      (serve_http engine hello 0 (new 0)).1
serve_http-HasAnswered_example =
    serve_http-HasAnswered 7 engine hello 0 (new 0) refl refl (build-IsIndexed stubs 1 none) few
      (λ body. refl) (λ body. refl) (λ body. is_get)

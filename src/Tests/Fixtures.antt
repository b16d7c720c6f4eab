-- ===== src/Tests/Fixtures.antt =====
-- Stubs, requests, documents and stores to try the development on.
use mockulus.Prelude.{ℕ, true, false, none, some, Option, [], ◌∷◌, List, Text, codes}
use mockulus.Prelude.Int.{pos}
use mockulus.Stub.{CompiledStub, UrlKind, PatternMatcher, ScenarioRef}
use mockulus.Stub.PathTemplate.{PathTemplate, literal, variable}
use mockulus.Match.Request.{ParsedRequest}
use mockulus.Match.Snapshot.{Snapshot, build_snapshot}
use mockulus.Match.Builder.{Compilers}
use mockulus.Store.{StoredStub, JournalEntry}

abbrev pub never : PatternMatcher
never = record { match_string = λ s. false; source = [] }

-- `/a/{x}`
abbrev pub one_variable : PathTemplate
one_variable = record {
  source = codes "/a/{x}";
  segments = literal (codes "a") ∷ variable (codes "x") ∷ [];
  vars = codes "x" ∷ [];
  literal_prefix = codes "/a";
}

abbrev pub stub_of : Text → ℕ → UrlKind → Text → Option ScenarioRef → CompiledStub
stub_of id seq kind url scenario = record {
  id = id;
  name = [];
  priority = pos 5;
  persistent = false;
  seq = seq;
  method = codes "GET";
  url_kind = kind;
  url_literal = url;
  url_regex = never;
  path_template = one_variable;
  literal_prefix = codes "/a";
  host = none;
  port = none;
  scheme = none;
  headers = [];
  query = [];
  cookies = [];
  form = [];
  path_params = [];
  basic_auth = [];
  body_matchers = [];
  scenario = scenario;
  response = record {
    status = 200;
    body = [];
    body_file_name = [];
    body_file_missing = false;
    fixed_delay = 0;
    fixed_delay_set = false;
  };
}

abbrev pub order_ref : ScenarioRef
order_ref = record {
  name = codes "order";
  required_state = codes "Started";
  new_state = codes "paid";
}

abbrev pub first : CompiledStub
first = stub_of (codes "1") 1 UrlKind.exact_path (codes "/a/b") none

abbrev pub second : CompiledStub
second = stub_of (codes "2") 2 UrlKind.template [] none

abbrev pub third : CompiledStub
third = stub_of (codes "3") 3 UrlKind.exact_full (codes "/a/b") (some order_ref)

abbrev pub stubs : List CompiledStub
stubs = first ∷ second ∷ third ∷ []

abbrev pub request : ParsedRequest
request = record {
  method = codes "GET";
  path = codes "/a/b";
  full_url = codes "/a/b";
  header = λ n. none;
  raw_body = [];
  content_type = [];
  raw_host = codes "localhost";
  is_tls = false;
  query = λ n. none;
  cookies = λ n. none;
  form = λ n. none;
  path_vars = [];
  scenario_states = [];
  scenario_err = none;
}

abbrev pub demo : Snapshot
demo = record (build_snapshot stubs 1) { settings = none }

-- Compilers that take a document for its own hash and compile every document to the first stub.
abbrev pub toy : Compilers
toy = record {
  json_valid = λ s. true;
  sum256 = λ s. s;
  compile_mapping = λ mapping seq. some (record first { seq = seq });
  compile_settings = λ s. none;
}

abbrev pub document : StoredStub
document = record {
  id = codes "1";
  schema_version = 1;
  seq = 1;
  persistent = false;
  created_at = 0;
  mapping = codes "{}";
}

abbrev pub entry_a : JournalEntry
entry_a = record { id = codes "a"; ts = 1; pod = codes "p"; content = codes "xyz" }

abbrev pub entry_b : JournalEntry
entry_b = record { id = codes "b"; ts = 2; pod = codes "p"; content = codes "xy" }

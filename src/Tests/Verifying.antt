-- ===== src/Tests/Verifying.antt =====
-- Request patterns and the handlers over recorded requests and files, on concrete requests.
use mockulus.Prelude.{
  ℕ, ◌+◌, ◌≤◌, ◌≡◌, ◌≢◌, ◌↔◌, refl, true, false, ◌&&◌, ◌||◌, none, some, List, [], ◌∷◌, map, Text,
  codes, arith, All, Bool, length, leb, ◌==◌, if◌then◌else◌, text_eq, text_eq_iff, has_prefix,
}
use mockulus.Prelude.Utf8.{valid_string}
use mockulus.Prelude.Map.{lookup}
use mockulus.Stub.{CompiledStub, Subject, key_values}
use mockulus.Match.Request.{ParsedRequest, path_of}
use mockulus.Match.FullMatch.{full_match}
use mockulus.Journal.{Served, recorded_request}
use mockulus.Admin.Criteria.{lower, equal_fold, matches}
use mockulus.Admin.Criteria.Headers.{IsToken, IsCanonical}
use mockulus.Admin.Criteria.Target.{HasPrefix}
use mockulus.Admin.Criteria.Parts.{IsCovered, IsParsed}
use mockulus.Admin.Criteria.Agrees.{IsUtf8, read_back, matches-full_match}
use mockulus.Store.{JournalEntry}
use mockulus.Store.Memory.{Store, new}
use mockulus.Store.Memory.Journal.{query_journal}
use mockulus.Admin.Requests.{Setup, Asked, removed, counted, remove_requests, count_requests}
use mockulus.Admin.Requests.Stored.{memory}
use mockulus.Admin.Requests.Removed.{IsKeyed, count_requests-remove_requests}
use mockulus.Stub.FileName.{reject_file_name}
use mockulus.Match.Builder.{new_builder}
use mockulus.Admin.{Pod, max_admin_body}
use mockulus.Admin.Files.{
  FileStore, routed_name, upload_file, remove_file, serve_file, stored, deleted, unknown, content,
}
use mockulus.Admin.Files.RoundTrip.{files_memory, file_at, serve_file-upload_file}
use mockulus.Tests.Fixtures.{toy, first, request}

-- Names in lower case.
abbrev small : Text → Text
small = map lower

small-folds : (a b : Text) → IsToken a → IsToken b → (small a ≡ small b) ↔ (equal_fold a b ≡ true)
unfolding equal_fold
small-folds [] [] h k = ground arith
small-folds [] (b ∷ t) h k = ground arith
small-folds (a ∷ s) [] h k = ground arith
small-folds (a ∷ s) (b ∷ t) h k = ground (arith, small-folds s t h.1 k.1)

-- A value is there.
abbrev is_present : Subject → Bool
is_present (key_values there vs strict) = there
is_present s = false

abbrev kind_header : CompiledStub
kind_header = record first {
  headers =
      record { name = codes "X-Kind"; matcher = record { matches = is_present; describe = [] } }
      ∷ [];
}

abbrev served : Served
served = record {
  method = codes "GET";
  request_uri = codes "/a/b";
  headers = (codes "x-kind", codes "one" ∷ []) ∷ [];
  cookies = [];
  query = [];
}

abbrev parsed_request : ParsedRequest
parsed_request = record request { header = λ name. lookup (small name) served.headers }

kind_header-IsCovered : IsCovered kind_header
kind_header-IsCovered = record {
  host = refl;
  port = refl;
  scheme = refl;
  form = refl;
  path_params = refl;
  basic_auth = refl;
}

kind_header-HasPrefix : HasPrefix kind_header
kind_header-HasPrefix = record {
  regex = λ t h. absurd (ground arith);
  segments = λ h. absurd (ground arith);
  template = λ h. absurd (ground arith);
}

served-IsParsed : IsParsed small served parsed_request
unfolding path_of mockulus.Prelude.cut_byte
served-IsParsed = record { method = refl; full_url = refl; path = refl; header = λ name. refl }

served-IsCanonical : IsCanonical small small-folds served.headers
served-IsCanonical = (((refl, (refl, (refl, (refl, (refl, (refl, tt)))))), refl), tt)

kind_header-tokens : All (λ c. IsToken c.name) kind_header.headers
kind_header-tokens = ((refl, (refl, (refl, (refl, (refl, (refl, tt)))))), tt)

no_body : length parsed_request.raw_body ≤ 100
no_body = omega arith

served-IsUtf8 : IsUtf8 served parsed_request.raw_body
unfolding valid_string
served-IsUtf8 = record {
  method = refl;
  request_uri = refl;
  raw_body = refl;
  headers = ((refl, (refl, tt)), tt);
  cookies = tt;
  query = tt;
}

matches-full_match_example :
    read_back kind_header (some (recorded_request 100 served parsed_request.raw_body))
    ≡ some (full_match kind_header parsed_request).0
matches-full_match_example =
    matches-full_match small small-folds (λ e. some e) kind_header served parsed_request 100
      (λ s raw utf8 fits. refl) served-IsUtf8 kind_header-IsCovered kind_header-HasPrefix
      served-IsParsed served-IsCanonical kind_header-tokens tt tt tt no_body

-- Every pattern is the stub, and every entry records the request.
abbrev setup : Setup
setup = record {
  compile = λ t. some kind_header;
  decode = λ t.
      some
        (record { request_raw = t; request = recorded_request 100 served []; was_matched = true });
  parse_time = λ t. none;
  scan_limit = 100;
}

abbrev asked : Asked
asked = record { since = []; limit = []; body = codes "{}" }

abbrev kept : JournalEntry
kept = record { id = codes "e1"; ts = 7; pod = codes "pod"; content = codes "event" }

abbrev recorded : Store
recorded = record (new 0) { journal = (codes "e1", kept) ∷ [] }

recorded-IsKeyed : IsKeyed recorded.journal
recorded-IsKeyed = (refl, tt)

recorded-fits : length recorded.journal ≤ setup.scan_limit
recorded-fits = omega arith

all_removed : (remove_requests setup asked (some memory) recorded).0 ≡ removed (codes "event" ∷ [])
unfolding remove_requests memory query_journal matches recorded_request lookup text_eq
    mockulus.Prelude.Sort.sort mockulus.Prelude.Map.values mockulus.Prelude.cut_byte
all_removed = refl

count_requests-remove_requests_example :
    (count_requests setup asked
      (some memory)
      (remove_requests setup asked (some memory) recorded).1).0
    ≡ counted 0
count_requests-remove_requests_example =
    count_requests-remove_requests setup asked recorded (codes "event" ∷ []) recorded-IsKeyed
      recorded-fits all_removed

abbrev served_from : Pod Store
served_from = record { world = new 0; builder = new_builder }

abbrev uploads : FileStore Store
uploads = files_memory (λ m. none) 9

abbrev upload_name : Text
upload_name = codes "a/b.txt"

upload_name-given : routed_name upload_name [] ≢ []
unfolding routed_name
upload_name-given h = ground arith

upload_name-accepted : reject_file_name (routed_name upload_name []) ≡ none
unfolding reject_file_name routed_name
upload_name-accepted = refl

hi-fits : length (codes "hi") ≤ max_admin_body
hi-fits = omega arith

serve_file-upload_file_example :
    let up = upload_file toy uploads upload_name [] (some (codes "hi")) served_from in
    let down = remove_file toy uploads upload_name [] up.1 in
    (up.0 ≡ stored)
    × ((serve_file toy uploads upload_name [] up.1).0 ≡ content (codes "hi"))
    × (file_at (codes "c") up.1.world.files ≡ (
        if text_eq (routed_name upload_name []) (codes "c")
        then content (codes "hi")
        else file_at (codes "c") served_from.world.files))
    × (down.0 ≡ deleted)
    × (file_at (codes "c") down.1.world.files ≡ (
        if text_eq (routed_name upload_name []) (codes "c")
        then unknown
        else file_at (codes "c") served_from.world.files))
serve_file-upload_file_example =
    serve_file-upload_file toy (λ m. none) 9 upload_name [] upload_name-given upload_name-accepted
      (codes "hi") (codes "c") served_from hi-fits

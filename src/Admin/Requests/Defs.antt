-- ===== src/Admin/Requests/Defs.antt =====
-- internal/admin/requests.go: the handlers over the journal. An answer stands for its status and body;
-- logging is left out.
use mockulus.Prelude.{
  ℕ, Bool, not, Option, none, some, List, [], ◌∷◌, ◌++◌, map, Text, codes, if◌then◌else◌, ltb,
  length, take, keep,
}
use mockulus.Prelude.Int.{pos, negsuc}
use mockulus.Stub.{CompiledStub}
use mockulus.Store.{StoreError, Result, ok, err, JournalEntry, JournalQuery, is_not_found}
use mockulus.Journal.{EventRequest}
use mockulus.Config.Size.{parse_int}
use mockulus.Admin.Defs.{max_admin_body}
use mockulus.Admin.Criteria.{matches}

-- What the handlers call of `store.JournalStore`: each call may fail and may change the world.
pub record JournalStore (W : Type 0) : Type 0 where
  pub query_journal : JournalQuery → W → Result (List JournalEntry) × W
  pub get_journal_entry : Text → W → Result JournalEntry × W
  pub delete_journal_entry : Text → W → Result (Unit {0}) × W
  pub clear_journal : W → Result (Unit {0}) × W

-- The `request` document of an entry as it is and as criteria read it, and `wasMatched`.
pub record Decoded : Type 0 where
  pub request_raw : Text
  pub request : EventRequest
  pub was_matched : Bool

-- Code of other packages, `stub.Compile`, `json.Unmarshal` of an entry and `time.Parse`, and
-- `JournalQueryScanLimit` of the configuration.
pub record Setup : Type 0 where
  pub compile : Text → Option CompiledStub
  pub decode : Text → Option Decoded
  pub parse_time : Text → Option ℕ
  pub scan_limit : ℕ

pub record ServeEvent : Type 0 where
  pub id : Text
  pub raw : Text
  pub request_raw : Text
  pub request : EventRequest
  pub matched : Bool

-- The parameters `since` and `limit` of a request, and its body.
pub record Asked : Type 0 where
  pub since : Text
  pub limit : Text
  pub body : Text

pub data Reported : Type 0 where
  listed : (page : List Text) → (total : ℕ) → Reported
  entry : Text → Reported
  counted : ℕ → Reported
  found removed : List Text → Reported
  done missing disabled malformed too_large invalid bad_since : Reported
  store_failed : StoreError → Reported

-- `queryInt`
unfoldable pub query_int : Text → ℕ → ℕ
unfolding parse_int
query_int [] fallback = fallback
query_int (c ∷ s) fallback = elim (parse_int (c ∷ s)) [
  | none ↦ fallback
  | some (negsuc n) ↦ fallback
  | some (pos n) ↦ n
]

unfoldable pub logged_requests : List ServeEvent → List Text
logged_requests events = map (λ e. e.request_raw) events

abbrev pub raws : List ServeEvent → List Text
raws events = map (λ e. e.raw) events

-- `compileCriteria`: the pattern is compiled as the `request` of a mapping.
unfoldable pub compile_criteria : Setup → Text → Option CompiledStub
compile_criteria setup raw = setup.compile (codes "{\"request\":" ++ (raw ++ codes "}"))

abbrev pub event_of : JournalEntry → Option Decoded → List ServeEvent → List ServeEvent
event_of e none events = events
event_of e (some d) events =
    record {
      id = e.id;
      raw = e.content;
      request_raw = d.request_raw;
      request = d.request;
      matched = d.was_matched;
    }
    ∷ events

-- The loop of `loadEvents`: an entry that cannot be decoded is passed over.
unfoldable pub events_of : Setup → List JournalEntry → List ServeEvent
events_of setup [] = []
events_of setup (e ∷ es) = event_of e (setup.decode e.content) (events_of setup es)

abbrev pub query_of : Setup → ℕ → JournalQuery
query_of setup since = record { since = since; limit = setup.scan_limit }

abbrev pub page_of : ℕ → List ServeEvent → List ServeEvent
page_of limit events = if ltb limit (length events) then take limit events else events

module _ {W : Type 0} (setup : Setup) where
  abbrev pub answer_call : (Result (Unit {0}) × W) → Reported × W
  answer_call (ok u, w) = (done, w)
  answer_call (err e, w) = (store_failed e, w)

  -- `journalBounds`
  unfoldable pub journal_bounds : Text → (JournalQuery → W → Reported × W) → W → Reported × W
  journal_bounds [] next w = next (query_of setup 0) w
  journal_bounds (c ∷ s) next w = elim (setup.parse_time (c ∷ s)) [
    | none ↦ (bad_since, w)
    | some t ↦ next (query_of setup t) w
  ]

  abbrev pub after_query :
      (List ServeEvent → W → Reported × W) → Result (List JournalEntry) × W → Reported × W
  after_query next (err e, w) = (store_failed e, w)
  after_query next (ok es, w) = next (events_of setup es) w

  -- `loadEvents`
  unfoldable pub load_events :
      JournalStore W → (List ServeEvent → W → Reported × W) → JournalQuery → W → Reported × W
  unfolding events_of
  load_events j next q w = after_query next (j.query_journal q w)

  -- `readBody`, of a body that could be read.
  unfoldable pub read_criteria : Text → (CompiledStub → W → Reported × W) → W → Reported × W
  unfolding compile_criteria
  read_criteria [] next w = (malformed, w)
  read_criteria (c ∷ s) next w =
      if ltb max_admin_body (length (c ∷ s))
      then (too_large, w)
      else elim (compile_criteria setup (c ∷ s)) [ none ↦ (invalid, w) | some cs ↦ next cs w ]

  abbrev pub when_enabled :
      (JournalStore W → W → Reported × W) → Option (JournalStore W) → W → Reported × W
  when_enabled next none w = (disabled, w)
  when_enabled next (some j) w = next j w

  -- `matchRequests`
  unfoldable pub match_requests :
      Asked
      → (JournalStore W → List ServeEvent → W → Reported × W)
      → JournalStore W
      → W
      → Reported × W
  unfolding read_criteria journal_bounds load_events matches
  match_requests a next j = read_criteria a.body (λ cs.
      journal_bounds a.since
        (load_events j (λ events. next j (keep (λ e. matches cs e.request) events))))

  -- `countRequests`
  unfoldable pub count_requests : Asked → Option (JournalStore W) → W → Reported × W
  unfolding match_requests
  count_requests a = when_enabled (match_requests a (λ j events w. (counted (length events), w)))

  -- `findRequests`
  unfoldable pub find_requests : Asked → Option (JournalStore W) → W → Reported × W
  unfolding match_requests logged_requests
  find_requests a =
      when_enabled (match_requests a (λ j events w. (found (logged_requests events), w)))

  -- The loop of `removeRequests`, which ends at the first call that fails.
  unfoldable pub delete_each :
      JournalStore W → List ServeEvent → (W → Reported × W) → W → Reported × W
  delete_each j [] next w = next w
  delete_each j (e ∷ es) next w =
      let rest = delete_each j es next in
      let r = j.delete_journal_entry e.id w in
      elim r.0 [ ok u ↦ rest r.1 | err f ↦ (store_failed f, r.1) ]

  -- `removeRequests`
  unfoldable pub remove_requests : Asked → Option (JournalStore W) → W → Reported × W
  unfolding match_requests delete_each
  remove_requests a =
      when_enabled
        (match_requests a (λ j events. delete_each j events (λ w. (removed (raws events), w))))

  -- `unmatchedRequests`
  unfoldable pub unmatched_requests : Asked → Option (JournalStore W) → W → Reported × W
  unfolding journal_bounds load_events logged_requests
  unmatched_requests a = when_enabled (λ j.
      journal_bounds a.since (
        load_events j
          (λ events w. (found (logged_requests (keep (λ e. not e.matched) events)), w))))

  -- `listRequests`
  unfoldable pub list_requests : Asked → Option (JournalStore W) → W → Reported × W
  unfolding journal_bounds load_events query_int
  list_requests a = when_enabled (λ j. journal_bounds a.since (
      load_events j (λ events w.
        (listed (raws (page_of (query_int a.limit (length events)) events)) (length events), w))))

  abbrev pub after_entry : Result JournalEntry × W → Reported × W
  after_entry (ok e, w) = (entry e.content, w)
  after_entry (err e, w) = if is_not_found e then (missing, w) else (store_failed e, w)

  -- `getRequest`
  unfoldable pub get_request : Text → Option (JournalStore W) → W → Reported × W
  get_request id = when_enabled (λ j w. after_entry (j.get_journal_entry id w))

  -- `deleteRequest`
  unfoldable pub delete_request : Text → Option (JournalStore W) → W → Reported × W
  delete_request id = when_enabled (λ j w. answer_call (j.delete_journal_entry id w))

  -- `clearRequests`
  unfoldable pub clear_requests : Option (JournalStore W) → W → Reported × W
  clear_requests = when_enabled (λ j w. answer_call (j.clear_journal w))

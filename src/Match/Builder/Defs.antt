-- ===== src/Match/Builder/Defs.antt =====
-- internal/match/builder.go, cache.go, splice.go and poller.go. The counters for metrics, the log
-- lines and the tracing spans are left out; the mutex makes each operation one step.
use mockulus.Prelude.{
  ◌&&◌, ℕ, Bool, true, false, not, ◌||◌, Option, none, some, List, [], ◌∷◌, ◌++◌, map, Text,
  text_eq, if◌then◌else◌, ltb, ◌==◌, keep, length,
}
use mockulus.Prelude.Map.{Map, lookup, insert}
use mockulus.Stub.{CompiledStub}
use mockulus.Store.{
  Result, ok, err, StoredStub, StoredFile, StoredSettings, schema_version_of_build, is_not_found,
}
use mockulus.Match.Snapshot.{Snapshot, Settings, build_snapshot, empty_snapshot}

-- The reasons of a quarantine.
pub data Reason : Type 0 where
  decode schema compile : Reason

pub data Compiled : Type 0 where
  compiled : CompiledStub → Compiled
  quarantined : Reason → Compiled

pub record CacheEntry : Type 0 where
  pub hash : Text
  pub stub : CompiledStub

abbrev pub Cache : Type 0
Cache = Map CacheEntry

-- The builder with the snapshot that its engine serves.
pub record Builder : Type 0 where
  pub cache : Cache
  pub served : Snapshot

abbrev pub new_builder : Builder
new_builder = record { cache = []; served = empty_snapshot }

-- What `LoadAll` returns.
abbrev pub Loaded : Type 0
Loaded = List StoredStub × List StoredFile × ℕ

unfoldable pub mem : Text → List Text → Bool
mem a [] = false
mem a (s ∷ l) = text_eq s a || mem a l

-- `compileCache.retain`
unfoldable pub retain : List Text → Cache → Cache
unfolding mem
retain live [] = []
retain live ((id, e) ∷ m) = let rest = retain live m in if mem id live then (id, e) ∷ rest else rest

-- The bytes of a body file, where the map of files has it.
unfoldable pub inline_body : Option Text → CompiledStub → CompiledStub
inline_body none cs = record cs { response = record (cs.response) { body_file_missing = true } }
inline_body (some content) cs = record cs {
  response = record (cs.response) { body_file_missing = false; body = content };
}

unfoldable pub resolve_body_file : Map Text → CompiledStub → CompiledStub
unfolding inline_body
resolve_body_file files cs =
    if text_eq cs.response.body_file_name []
    then cs
    else inline_body (lookup cs.response.body_file_name files) cs

abbrev files_by_name : Map Text → List StoredFile → Map Text
files_by_name m [] = m
files_by_name m (f ∷ files) = files_by_name (insert f.name f.content m) files

unfoldable pub by_name : List StoredFile → Map Text
by_name = files_by_name []

-- The identifier and the persistence that a compiled stub takes from its document.
unfoldable pub name_stub : StoredStub → CompiledStub → CompiledStub
name_stub doc cs = record cs {
  id = if text_eq cs.id [] then doc.id else cs.id;
  persistent = doc.persistent;
}

-- `json.Valid`, `sha256.Sum256`, `stub.Compile` under the process's options and
-- `stub.CompileSettings`; `none` is a list of errors.
pub record Compilers : Type 0 where
  pub json_valid : Text → Bool
  pub sum256 : Text → Text
  pub compile_mapping : Text → ℕ → Option CompiledStub
  pub compile_settings : Text → Option Settings

abbrev pub collect : Compiled → List CompiledStub → List CompiledStub
collect (compiled cs) rest = cs ∷ rest
collect (quarantined r) rest = rest

-- `CompileSettings`, then `IsZero`.
unfoldable pub usable : Option Settings → Option Settings
usable none = none
usable (some s) = if s.fixed_delay == 0 && not s.has_distribution then none else some s

module _ (c : Compilers) where
  -- `compileCache.get`
  unfoldable pub cache_get : Text → Text → Cache → Option CompiledStub
  cache_get id doc cache = elim (lookup id cache) [
    | none ↦ none
    | some e ↦ if text_eq e.hash (c.sum256 doc) then some e.stub else none
  ]

  -- `compileCache.put`
  unfoldable pub cache_put : Text → Text → CompiledStub → Cache → Cache
  cache_put id doc cs cache = insert id (record { hash = c.sum256 doc; stub = cs }) cache

  -- A miss: the document is compiled, and its pure compilation is what the cache keeps.
  unfoldable pub compile_fresh :
      Map Text → StoredStub → Option CompiledStub → Cache → Compiled × Cache
  unfolding cache_put name_stub
  compile_fresh files doc none cache = (quarantined compile, cache)
  compile_fresh files doc (some cs) cache = (
    compiled (resolve_body_file files (name_stub doc cs)),
    cache_put doc.id doc.mapping (name_stub doc cs) cache,
  )

  unfoldable pub compile_or_reuse :
      Map Text → StoredStub → Option CompiledStub → Cache → Compiled × Cache
  compile_or_reuse files doc (some cached) cache =
      (compiled (resolve_body_file files cached), cache)
  compile_or_reuse files doc none cache =
      compile_fresh files doc (c.compile_mapping doc.mapping doc.seq) cache

  -- `Builder.compile`
  unfoldable pub compile_stub : Map Text → StoredStub → Cache → Compiled × Cache
  compile_stub files doc cache =
      if ltb schema_version_of_build doc.schema_version
      then (quarantined schema, cache)
      else if text_eq doc.mapping [] || not (c.json_valid doc.mapping)
      then (quarantined decode, cache)
      else compile_or_reuse files doc (cache_get doc.id doc.mapping cache) cache

  -- The loop of `rebuildOnce` over the documents.
  unfoldable pub compile_all : Map Text → List StoredStub → Cache → List CompiledStub × Cache
  compile_all files [] cache = ([], cache)
  compile_all files (doc ∷ docs) cache =
      let one = compile_stub files doc cache in
      let rest = compile_all files docs one.1 in (collect one.0 rest.0, rest.1)

  unfoldable pub load_settings : Result StoredSettings → Result (Option Settings)
  unfolding usable
  load_settings (err e) = if is_not_found e then ok none else err e
  load_settings (ok doc) =
      if ltb schema_version_of_build doc.schema_version
      then ok none
      else ok (usable (c.compile_settings doc.settings))

  unfoldable pub swap_loaded : Loaded → Option Settings → Builder → Builder
  swap_loaded (stored, files, epoch) settings b =
      let done = compile_all (by_name files) stored b.cache in
      record {
        cache = retain (map (λ doc. doc.id) stored) done.1;
        served = record (build_snapshot done.0 epoch) { settings = settings };
      }

  -- `rebuildOnce`, by what the store's two reads return.
  unfoldable pub rebuild :
      Result Loaded → Result (Option Settings) → Builder → Result (Unit {0}) × Builder
  unfolding swap_loaded
  rebuild (err e) settings b = (err e, b)
  rebuild (ok loaded) (err e) b = (err e, b)
  rebuild (ok loaded) (ok settings) b = (ok tt, swap_loaded loaded settings b)

  -- `Poller.pollOnce`, by what the store's three reads return.
  unfoldable pub poll_once : Result ℕ → Result Loaded → Result StoredSettings → Builder → Builder
  unfolding load_settings
  poll_once (err e) loaded settings b = b
  poll_once (ok epoch) loaded settings b =
      if epoch == b.served.epoch then b else (rebuild loaded (load_settings settings) b).1

-- `GetFile` of one name, as a map of files.
abbrev pub fetched : Result StoredFile → Map Text
fetched (ok f) = (f.name, f.content) ∷ []
fetched (err e) = []

abbrev pub same_id : CompiledStub → CompiledStub → Bool
same_id cs existing = text_eq existing.id cs.id

abbrev pub replace_by : CompiledStub → CompiledStub → CompiledStub
replace_by cs existing = if same_id cs existing then cs else existing

unfoldable pub any_with_id : CompiledStub → List CompiledStub → Bool
any_with_id cs [] = false
any_with_id cs (x ∷ l) = same_id cs x || any_with_id cs l

-- The loop of `SpliceStub`.
unfoldable pub splice_ordered : CompiledStub → List CompiledStub → List CompiledStub
unfolding any_with_id
splice_ordered cs ordered =
    if any_with_id cs ordered
    then map (replace_by cs) ordered
    else map (replace_by cs) ordered ++ cs ∷ []

unfoldable pub install : List CompiledStub → Builder → Builder
install ordered b = record b {
  served = record (build_snapshot ordered b.served.epoch) { settings = b.served.settings };
}

unfoldable pub splice_stub : Result StoredFile → CompiledStub → Builder → Builder
unfolding splice_ordered install
splice_stub file cs b =
    install (splice_ordered (resolve_body_file (fetched file) cs) b.served.ordered) b

abbrev pub other_id : Text → CompiledStub → Bool
other_id id existing = not (text_eq existing.id id)

unfoldable pub splice_delete : Text → Builder → Builder
unfolding install
splice_delete id b =
    let ordered = keep (other_id id) b.served.ordered in
    if length ordered == length b.served.ordered then b else install ordered b

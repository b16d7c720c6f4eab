-- ===== src/Lib.antt =====
-- Mockulus serves stubbed HTTP responses from mappings that its pods share through a store. Each
-- pod serves from an immutable snapshot: a request is matched against the snapshot's stubs in
-- selection order, by way of hash indexes. A builder rebuilds the snapshot from the store when a
-- poll sees the store's epoch change, and splices the writes of its own pod in at once. Scenarios
-- gate stubs on a state in the store that transitions move by compare-and-swap. A journal records
-- what was served, without ever blocking a request.
--
-- The parts and their files:
--   Prelude    shared names and lemmas: byte strings as lists of numbers (Bytes), maps with string
--              keys as association lists (Map), the stable sort (Sort), signed integers (Int).
--   Stub       internal/stub/compile.go, settings.go (Compiled: `CompiledStub` as the matcher reads
--              it) and pathtemplate.go (PathTemplate: `ParsePathTemplate` in Parse, the walk of
--              `Match` in Defs, read off the parts of the path in Fits).
--              FileName is internal/stub/filename.go, with the rules read off the elements of a path.
--   Store      internal/store/store.go (Defs) and internal/store/memory/memory.go (Memory: the state
--              and the stubs, files and settings in Defs, Scenario, Journal; Lifetime and Query
--              have the theorems on expiry and on queries).
--   Match      internal/match: request.go with internal/httpx/httpx.go (Request), `fullMatch` and
--              `matchURL` (FullMatch), `BuildSnapshot` (Snapshot), `Snapshot.Match` (Select), and
--              builder.go, cache.go, splice.go and poller.go (Builder).
--   Scenario   internal/scenario/scenario.go over an interface of a store (Defs), alone on the
--              in-memory driver (Uncontended) and among other clients (Race, Tokens, Gated); Gate has
--              `scenarioGate` of cmd/mockulus/main.go.
--   Journal    internal/journal/journal.go: the writer as events of its goroutines (Defs), its bytes
--              (Accounting) and its entries (Conservation).
--   Matchers   internal/matchers: the pairing of arrays whose order is ignored (Pairing: `augment` in
--              Defs, what a search changes in Moves and Augment, what a failed one leaves in Stuck,
--              the loop in Complete, the answer in Correct), documents with placeholders and
--              `jsonEqual` (Json), exact decimals and the scan for wide literals (Json/Numbers), the
--              charset of a body (Charset) and the criteria of matchers.go and multivalue.go with
--              the subjects they read (Criteria). A search for an augmenting path runs on fuel: one
--              more than the actual elements, each of which it visits once at most. The scan runs a
--              round for each byte of the document.
--   Admin      internal/admin/mappings.go, mappings_write.go and `resetAll`: the handlers that write
--              mappings, over a store whose calls may fail (Defs, Mappings, Import, Metadata); Memory
--              is the in-memory driver as such a store, Clean and Rejected are about requests that are
--              refused, Written and Update about an update, ImportOrder about an import. Criteria is
--              criteria.go, on what `NewEntry` of internal/journal/journal.go records (Journal/Recording)
--              and against the engine (Agrees, with Headers, Target and Parts); Requests is requests.go,
--              with the in-memory journal in Stored and a removal in Removed;
--              Files is files.go.
--   Engine     internal/match/engine.go: `readBody` (Body, with Capped on its cap), `ServeHTTP`,
--              `transition`, `finish` and `accessLog` (Defs), and the handler over the in-memory driver
--              (Scan, Advance).
--   Regexx     internal/regexx/javasyntax.go (JavaSyntax): classes of code points in Ranges, where an
--              escape ends and what it means in Escapes, what the translator writes in Rewrite, its loops
--              in Scan, which run a round for each byte at most; Copies, Rounds and Faithful are about
--              patterns that are left as they are, Complement about the upper-case escapes, Unbounded
--              about the bound on the output. The texts of the refusals are left out.
--   Config     internal/config/types.go: `Bytes` as it is rendered and parsed (Size).
--   EditDistance  internal/wmcompat/nearmiss.go: `editDistance`, with a fresh list for each row.
--   Tests      concrete data, and the theorems applied to it.
--
-- How the model reads the code. A method that changes a receiver is a function from its state to its
-- state. A gate may change the request, which memoizes, and a world such as the store, so both are
-- passed through a match. An `int32` is its bit pattern, and indexes into the ordered stubs wrap as
-- those do; a snapshot's length is bounded by 2 ^ 31 where a theorem needs it. The tokens of
-- compare-and-swap wrap at 2 ^ 64, and a theorem on races bounds the writes by that. Go's maps are
-- association lists, since the program sorts what it iterates over or does not see the order. The
-- merge of the candidate lists runs on fuel: one more than the number of stubs, which the theorem
-- on it shows to be enough. Times are counts of nanoseconds. A critical section of a mutex is one
-- step; other goroutines act between steps. A float64 is its bit pattern. What a subject parses once
-- and keeps is a function of it. The comparisons of two arrays are made before they are paired.
--
-- Parameters: `stub.Compile`, `stub.CompileSettings`, `json.Valid` and `sha256.Sum256` of a builder
-- (`Compilers`), `store.PersistentMapping`, which rewrites JSON, the matchers and regular
-- expressions that a compiled stub holds, and the parsed query, cookies and form of a request. The
-- criteria take what they use of encoding/json (`GoJson`), of the Unicode tables of strings
-- (`GoStrings`), compiled patterns and JSON paths, and any matcher of another file as a function.
-- The handlers take `uuid.Parse`, `stub.WithIdentity`, `stub.Metadata`, `matchers.Compile` and the
-- decoding of an import (`Documents`), the identifiers that `uuid.NewString` returns and the clock.
-- A pattern on recorded requests takes `stub.Compile`, the decoding of an entry, which gives back what
-- was recorded of texts that are valid UTF-8, `time.Parse` and the canonical spelling of header names.
-- The translation of a pattern takes the names of the scripts of package unicode, a size the
-- trimming of strings. The engine takes what a request's body gives to its readers, how a request is parsed around a body
-- and the status that `response.Write` answers with.
--
-- Not modelled: the text of logs, the values of metrics, tracing, HTTP input and output, rendering of
-- responses and templates, the admin handlers for scenarios, settings and near misses, the near-miss
-- report but for its edit distance, the Couchbase and file drivers, the pooling of requests, timers and
-- cancellation. They are no part of which stub serves, or wrap other systems.
pub mod Prelude
pub mod Stub
pub mod Store
pub mod Match
pub mod Scenario
pub mod Journal
pub mod Matchers
pub mod Admin
pub mod Engine
pub mod Regexx
pub mod Config
pub mod EditDistance
pub mod Tests

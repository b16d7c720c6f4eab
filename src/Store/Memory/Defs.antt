-- ===== src/Store/Memory/Defs.antt =====
-- internal/store/memory/memory.go: the state of the driver and its methods.
use mockulus.Prelude.{
  ℕ, ◌+◌, ◌%◌, ◌^◌, Bool, true, false, not, ◌&&◌, Option, none, some, List, [], map, Text, text_eq,
  text_lt, if◌then◌else◌, ltb, ◌==◌,
}
use mockulus.Prelude.Map.{Map, lookup, insert, delete, prune, update_all, values}
use mockulus.Prelude.Sort
use mockulus.Store.Defs.{
  StoreError, Result, ok, err, StoredStub, StoredFile, StoredSettings, ScenarioState, JournalEntry,
}

-- `expires_at` is `none` for the zero time.
pub record Entry : Type 0 where
  pub stub : StoredStub
  pub expires_at : Option ℕ

-- The token `cas` is a `uint64`.
pub record ScenarioEntry : Type 0 where
  pub state : ScenarioState
  pub cas : ℕ

pub record Store : Type 0 where
  pub ephemeral_ttl : ℕ
  pub stubs : Map Entry
  pub files : Map Text
  pub scenarios : Map ScenarioEntry
  pub journal : Map JournalEntry
  pub settings : Option StoredSettings
  pub epoch : ℕ
  pub seq : ℕ
  pub cas_seq : ℕ

abbrev pub new : ℕ → Store
new ephemeral_ttl = record {
  ephemeral_ttl = ephemeral_ttl;
  stubs = [];
  files = [];
  scenarios = [];
  journal = [];
  settings = none;
  epoch = 0;
  seq = 0;
  cas_seq = 0;
}

-- `n++` on a `uint64`.
abbrev pub incr : ℕ → ℕ
incr n = (n + 1) % 2 ^ 64

-- `!e.expiresAt.IsZero() && now.After(e.expiresAt)`
abbrev pub is_expired : ℕ → Entry → Bool
is_expired now e = elim e.expires_at [ none ↦ false | some t ↦ ltb t now ]

unfoldable pub expire_locked : ℕ → Store → Store
expire_locked now s =
    if s.ephemeral_ttl == 0
    then s
    else record s { stubs = prune (λ e. not (is_expired now e)) s.stubs }

abbrev files_of : Map Text → List StoredFile
files_of = map (λ f. record { name = f.0; content = f.1 })

unfoldable pub load_all : ℕ → Store → (List StoredStub × List StoredFile × ℕ) × Store
unfolding expire_locked
load_all now s =
    let s' = expire_locked now s in
    (
      (
        Sort.sort (λ (a b : StoredStub). ltb a.seq b.seq) (map (λ e. e.stub) (values s'.stubs)),
        Sort.sort (λ (a b : StoredFile). text_lt a.name b.name) (files_of s'.files),
        s'.epoch,
      ),
      s',
    )

abbrev pub entry_of : ℕ → ℕ → StoredStub → Entry
entry_of ttl now stub = record {
  stub = stub;
  expires_at = if not stub.persistent && ltb 0 ttl then some (now + ttl) else none;
}

unfoldable pub put_stub : ℕ → StoredStub → Store → Result (Unit {0}) × Store
put_stub now stub s =
    if text_eq stub.id []
    then (err StoreError.other, s)
    else (ok tt, record s { stubs = insert stub.id (entry_of s.ephemeral_ttl now stub) s.stubs })

abbrev pub found_live : ℕ → Option Entry → Result StoredStub
found_live now none = err StoreError.not_found
found_live now (some e) = if is_expired now e then err StoreError.not_found else ok e.stub

unfoldable pub get_stub : ℕ → Text → Store → Result StoredStub
get_stub now id s = found_live now (lookup id s.stubs)

unfoldable pub delete_stub : Text → Store → Store
delete_stub id s = record s { stubs = delete id s.stubs }

unfoldable pub delete_all_stubs : Store → Store
delete_all_stubs s = record s { stubs = [] }

unfoldable pub delete_ephemeral_stubs : Store → Store
delete_ephemeral_stubs s = record s { stubs = prune (λ e. e.stub.persistent) s.stubs }

-- `store.PersistentMapping` rewrites a document by `encoding/json`; `none` is a document that
-- cannot be read.
abbrev pub PersistentMapping : Type 0
PersistentMapping = Text → Option Text

unfoldable pub mark_persistent : PersistentMapping → Entry → Entry
mark_persistent persistent_mapping e =
    if e.stub.persistent then e else elim (persistent_mapping e.stub.mapping) [
      | none ↦ e
      | some mapping ↦ record {
        stub = record (e.stub) { mapping = mapping; persistent = true };
        expires_at = none;
      }
    ]

unfoldable pub mark_all_persistent : PersistentMapping → Store → Store
unfolding mark_persistent
mark_all_persistent persistent_mapping s = record s {
  stubs = update_all (mark_persistent persistent_mapping) s.stubs;
}

unfoldable pub put_file : StoredFile → Store → Store
put_file file s = record s { files = insert file.name file.content s.files }

unfoldable pub get_file : Text → Store → Result StoredFile
get_file name s = elim (lookup name s.files) [
  | none ↦ err StoreError.not_found
  | some content ↦ ok (record { name = name; content = content })
]

unfoldable pub delete_file : Text → Store → Store
delete_file name s = record s { files = delete name s.files }

unfoldable pub list_files : Store → List Text
list_files s = Sort.sort text_lt (map (λ f. f.0) s.files)

unfoldable pub next_seq : Store → ℕ × Store
next_seq s = (incr s.seq, record s { seq = incr s.seq })

unfoldable pub bump_epoch : Store → ℕ × Store
bump_epoch s = (incr s.epoch, record s { epoch = incr s.epoch })

unfoldable pub get_settings : Store → Result StoredSettings
get_settings s = elim s.settings [ none ↦ err StoreError.not_found | some d ↦ ok d ]

unfoldable pub put_settings : StoredSettings → Store → Store
put_settings d s = record s { settings = some d }

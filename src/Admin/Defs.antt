-- ===== src/Admin/Defs.antt =====
-- internal/admin/mappings.go: what the handlers are given and what they answer. An answer stands for
-- its status and body; logging and metrics are left out.
use mockulus.Prelude.{
  ℕ, Bool, Option, none, some, List, [], Text, if◌then◌else◌, ltb, ◌==◌, length, text_eq,
}
use mockulus.Stub.{CompiledStub, Matcher}
use mockulus.Store.{
  StoreError, Result, ok, err, StoredStub, StoredFile, StoredSettings, is_not_found,
}
use mockulus.Match.Builder.{Builder, Compilers, load_settings, rebuild, splice_stub}

-- What the handlers call of `store.Store`: each call may fail and may change the world.
pub record StubStore (W : Type 0) : Type 0 where
  pub get_stub : Text → W → Result StoredStub × W
  pub put_stub : StoredStub → W → Result (Unit {0}) × W
  pub delete_stub : Text → W → Result (Unit {0}) × W
  pub delete_all_stubs : W → Result (Unit {0}) × W
  pub delete_ephemeral_stubs : W → Result (Unit {0}) × W
  pub mark_all_persistent : W → Result (Unit {0}) × W
  pub next_seq : W → Result ℕ × W
  pub bump_epoch : W → Result ℕ × W
  pub load_all : W → Result (List StoredStub × List StoredFile × ℕ) × W
  pub get_settings : W → Result StoredSettings × W
  pub get_file : Text → W → Result StoredFile × W

pub record ImportOptions : Type 0 where
  pub duplicate_policy : Text
  pub delete_all_not_in_import : Bool

pub record ImportRequest : Type 0 where
  pub mappings : Option (List Text)
  pub import_options : Option ImportOptions

-- Code of other packages: `uuid.Parse` with the canonical spelling of what it read,
-- `stub.WithIdentity`, `stub.Metadata`, `matchers.Compile` and `json.Unmarshal` of an import.
pub record Documents : Type 0 where
  pub parse_uuid : Text → Option Text
  pub with_identity : Text → Text → Option Text
  pub metadata : Text → Text
  pub compile_matcher : Text → Option Matcher
  pub decode_import : Text → Option ImportRequest

pub data Answer : Type 0 where
  created updated : (doc : Text) → Answer
  done imported : Answer
  listed : List Text → Answer
  missing not_uuid duplicate_id malformed invalid too_large : Answer
  store_failed : StoreError → Answer

-- A pod: the world of its store, and its builder with the snapshot that it serves.
pub record Pod (W : Type 0) : Type 0 where
  pub world : W
  pub builder : Builder

abbrev pub Handler : Type 0 → Type 0
Handler W = Pod W → Answer × Pod W

abbrev pub max_admin_body : ℕ
max_admin_body = 33554432

abbrev pub canonical_id_len : ℕ
canonical_id_len = 36

module _ {W : Type 0} where
  abbrev pub reply : Answer → Handler W
  reply a pod = (a, pod)

  -- `readBody`, of a body that could be read.
  unfoldable pub read_body : Text → Handler W → Handler W
  read_body [] next pod = (malformed, pod)
  read_body raw next pod = if ltb max_admin_body (length raw) then (too_large, pod) else next pod

  -- A store call whose failure ends the handler with `storeError`.
  abbrev pub after : {A : Type 0} → (A → Handler W) → Result A → Handler W
  after next (ok a) pod = next a pod
  after next (err e) pod = (store_failed e, pod)

  abbrev pub moved_to : W → Pod W → Pod W
  moved_to w pod = record { world = w; builder = pod.builder }

  unfoldable pub call : {A : Type 0} → (W → Result A × W) → (A → Handler W) → Handler W
  call op next pod = let r = op pod.world in after next r.0 (moved_to r.1 pod)

  -- `GetStub` of a stub that may be missing.
  abbrev pub after_lookup : Handler W → (StoredStub → Handler W) → Result StoredStub → Handler W
  after_lookup absent found (ok s) pod = found s pod
  after_lookup absent found (err e) pod =
      if is_not_found e then absent pod else (store_failed e, pod)

  unfoldable pub lookup_stub : StubStore W → Text → Handler W → (StoredStub → Handler W) → Handler W
  lookup_stub store id absent found pod =
      let r = store.get_stub id pod.world in after_lookup absent found r.0 (moved_to r.1 pod)

  abbrev pub or_reply : {A : Type 0} → Answer → (A → Handler W) → Option A → Handler W
  or_reply a next none pod = (a, pod)
  or_reply a next (some x) pod = next x pod

  -- `mappingID`
  unfoldable pub mapping_id : Documents → Text → (Text → Handler W) → Handler W
  mapping_id docs segment next pod =
      or_reply not_uuid
        (λ id pod'. if length segment == canonical_id_len then next id pod' else (missing, pod'))
        (docs.parse_uuid segment) pod

  -- `rebuild`: a failure keeps the snapshot and is logged alone.
  unfoldable pub after_load :
      Compilers → StubStore W → Builder → Result (List StoredStub × List StoredFile × ℕ) × W → Pod W
  unfolding rebuild load_settings
  after_load c store b (err e, w) = record { world = w; builder = b }
  after_load c store b (ok loaded, w) =
      let s = store.get_settings w in
      record { world = s.1; builder = (rebuild c (ok loaded) (load_settings c s.0) b).1 }

  unfoldable pub refresh : Compilers → StubStore W → Pod W → Pod W
  unfolding after_load
  refresh c store pod = after_load c store pod.builder (store.load_all pod.world)

  -- `SpliceStub`, which reads the body file that the stub names, if it names one.
  unfoldable pub splice : StubStore W → CompiledStub → Pod W → Pod W
  splice store cs pod =
      if text_eq cs.response.body_file_name []
      then record pod { builder = splice_stub (err StoreError.not_found) cs pod.builder }
      else let r = store.get_file cs.response.body_file_name pod.world in
        record { world = r.1; builder = splice_stub r.0 cs pod.builder }

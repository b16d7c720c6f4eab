-- ===== src/Admin/Import.antt =====
-- internal/admin/mappings_write.go: `importMappings`.
use mockulus.Prelude.{
  ℕ, ◌+◌, Bool, true, false, not, ◌&&◌, Option, none, some, List, [], ◌∷◌, map, Text, codes,
  if◌then◌else◌, text_eq,
}
use mockulus.Prelude.Map.{Map, lookup, insert}
use mockulus.Stub.{CompiledStub}
use mockulus.Store.{StoreError, Result, ok, err, StoredStub, StoredFile, is_not_found}
use mockulus.Match.Builder.{Compilers, mem}
use mockulus.Admin.Defs.{
  StubStore, ImportOptions, ImportRequest, Documents, imported, malformed, invalid, store_failed,
  Handler, read_body, call, or_reply, moved_to, refresh,
}
use mockulus.Admin.Mappings.{stored_stub}

abbrev duplicate_overwrite : Text
duplicate_overwrite = codes "OVERWRITE"

abbrev duplicate_ignore : Text
duplicate_ignore = codes "IGNORE"

-- A mapping that is ready to be written.
pub record Pending : Type 0 where
  pub id : Text
  pub doc : Text
  pub compiled : CompiledStub

-- What the store held before the batch, by the ids looked up.
abbrev pub Before : Type 0
Before = Map (Option StoredStub)

-- The validation of a batch: a failed look-up, or the items, whether there were problems, and what the
-- store held.
pub data Prepared : Type 0 where
  unreadable : StoreError → Prepared
  prepared : List Pending → (problems : Bool) → Before → Prepared

abbrev pub add_problem : {W : Type 0} → Prepared × W → Prepared × W
add_problem (unreadable e, w) = (unreadable e, w)
add_problem (prepared items problems before, w) = (prepared items true before, w)

abbrev pub add_item : {W : Type 0} → Pending → Prepared × W → Prepared × W
add_item item (unreadable e, w) = (unreadable e, w)
add_item item (prepared items problems before, w) = (prepared (item ∷ items) problems before, w)

-- The batch as far as it is written: a failed call, or the stubs written.
pub data Applied : Type 0 where
  broken : StoreError → Applied
  applied : Map StoredStub → Applied

-- What an item collides with: one written before it, or one that the store held.
unfoldable pub existing_of : Option StoredStub → Option (Option StoredStub) → Option StoredStub
existing_of (some s) before = some s
existing_of none none = none
existing_of none (some before) = before

abbrev pub keep_ids : List Pending → List Text
keep_ids = map (λ item. item.id)

module _ {W : Type 0} (c : Compilers) (docs : Documents) (store : StubStore W) where
  -- The identity is stamped in.
  unfoldable pub stamp : Text → CompiledStub → Text → Prepared × W → Prepared × W
  stamp mapping cs id rest = elim (docs.with_identity mapping id) [
    | none ↦ add_problem rest
    | some doc ↦ add_item (record { id = id; doc = doc; compiled = cs }) rest
  ]

  unfoldable pub after_probe :
      (Before → W → Prepared × W) → Text → Before → Result StoredStub × W → Prepared × W
  after_probe next id before (ok s, w) = next (insert id (some s) before) w
  after_probe next id before (err e, w) =
      if is_not_found e then next (insert id none before) w else (unreadable e, w)

  -- An id is looked up once in a batch.
  unfoldable pub probe : (Before → W → Prepared × W) → Text → Before → W → Prepared × W
  unfolding after_probe
  probe next id before w = elim (lookup id before) [
    | some known ↦ next before w
    | none ↦ after_probe next id before (store.get_stub id w)
  ]

  unfoldable pub prepare_one :
      Text → Text → (Before → W → Prepared × W) → Option CompiledStub → Before → W → Prepared × W
  unfolding stamp probe
  prepare_one mapping fresh next none before w = add_problem (next before w)
  prepare_one mapping fresh next (some cs) before w =
      if text_eq cs.id []
      then stamp mapping cs fresh (next before w)
      else stamp mapping cs cs.id (probe next cs.id before w)

  -- The loop that validates; `fresh` is what `uuid.NewString` returns for an element.
  unfoldable pub prepare : (ℕ → Text) → ℕ → List Text → Before → W → Prepared × W
  unfolding prepare_one
  prepare fresh i [] before w = (prepared [] false before, w)
  prepare fresh i (mapping ∷ mappings) before w =
      prepare_one mapping (fresh i) (prepare fresh (i + 1) mappings) (c.compile_mapping mapping 0)
        before w

  unfoldable pub written : Map StoredStub → StoredStub → Result (Unit {0}) × W → Applied × W
  written done stored (ok u, w) = (applied (insert stored.id stored done), w)
  written done stored (err e, w) = (broken e, w)

  unfoldable pub put_item : Map StoredStub → StoredStub → W → Applied × W
  unfolding written
  put_item done stored w = written done stored (store.put_stub stored w)

  unfoldable pub put_new : ℕ → Pending → Map StoredStub → Result ℕ × W → Applied × W
  unfolding put_item
  put_new now item done (err e, w) = (broken e, w)
  put_new now item done (ok seq, w) =
      put_item done (stored_stub item.id seq now item.compiled item.doc) w

  unfoldable pub put_over :
      Bool → ℕ → Pending → Map StoredStub → Option StoredStub → W → Applied × W
  unfolding put_item put_new
  put_over ignore now item done (some s) w =
      if ignore
      then (applied done, w)
      else put_item done (stored_stub item.id s.seq s.created_at item.compiled item.doc) w
  put_over ignore now item done none w = put_new now item done (store.next_seq w)

  unfoldable pub apply_item : Bool → ℕ → Before → Pending → Applied × W → Applied × W
  unfolding put_over existing_of
  apply_item ignore now before item (broken e, w) = (broken e, w)
  apply_item ignore now before item (applied done, w) =
      put_over ignore now item done (existing_of (lookup item.id done) (lookup item.id before)) w

  -- The loop that writes, from the last item to the first.
  unfoldable pub apply_items : Bool → ℕ → Before → List Pending → W → Applied × W
  unfolding apply_item
  apply_items ignore now before [] w = (applied [], w)
  apply_items ignore now before (item ∷ items) w =
      apply_item ignore now before item (apply_items ignore now before items w)

  unfoldable pub delete_next :
      (W → Result (Unit {0}) × W) → Result (Unit {0}) × W → Result (Unit {0}) × W
  delete_next next (ok u, w) = next w
  delete_next next (err e, w) = (err e, w)

  unfoldable pub delete_others : List Text → List StoredStub → W → Result (Unit {0}) × W
  unfolding delete_next
  delete_others keep [] w = (ok tt, w)
  delete_others keep (s ∷ stubs) w =
      let next = delete_others keep stubs in
      if mem s.id keep then next w else delete_next next (store.delete_stub s.id w)

  unfoldable pub delete_loaded :
      List Text → Result (List StoredStub × List StoredFile × ℕ) × W → Result (Unit {0}) × W
  unfolding delete_others
  delete_loaded keep (err e, w) = (err e, w)
  delete_loaded keep (ok (stubs, files, epoch), w) = delete_others keep stubs w

  -- `deleteStubsNotIn`
  unfoldable pub delete_stubs_not_in : List Text → W → Result (Unit {0}) × W
  unfolding delete_loaded
  delete_stubs_not_in keep w = delete_loaded keep (store.load_all w)

  unfoldable pub finish_import : Handler W
  unfolding call refresh
  finish_import = call store.bump_epoch (λ _ pod. (imported, refresh c store pod))

  unfoldable pub after_apply : Bool → List Text → Applied → Handler W
  unfolding call delete_stubs_not_in finish_import
  after_apply remove keep (broken e) pod = (store_failed e, pod)
  after_apply remove keep (applied done) pod =
      if remove then call (delete_stubs_not_in keep) (λ _. finish_import) pod else finish_import pod

  -- Nothing is written where there are problems.
  unfoldable pub after_prepare : Bool → Bool → ℕ → Prepared → Handler W
  unfolding apply_items after_apply
  after_prepare ignore remove now (unreadable e) pod = (store_failed e, pod)
  after_prepare ignore remove now (prepared items problems before) pod =
      if problems
      then (invalid, pod)
      else let r = apply_items ignore now before items pod.world in
        after_apply remove (keep_ids items) r.0 (moved_to r.1 pod)

  unfoldable pub import_all : (ℕ → Text) → Bool → Bool → ℕ → List Text → Handler W
  unfolding prepare after_prepare
  import_all fresh ignore remove now mappings pod =
      let r = prepare fresh 0 mappings [] pod.world in
      after_prepare ignore remove now r.0 (moved_to r.1 pod)

  unfoldable pub with_options : (ℕ → Text) → ℕ → Option ImportOptions → List Text → Handler W
  unfolding import_all
  with_options fresh now none mappings pod = import_all fresh false false now mappings pod
  with_options fresh now (some options) mappings pod =
      let policy = options.duplicate_policy in
      let ignore = text_eq policy duplicate_ignore in
      if not (text_eq policy []) && (not (text_eq policy duplicate_overwrite) && not ignore)
      then (malformed, pod)
      else import_all fresh ignore options.delete_all_not_in_import now mappings pod

  unfoldable pub import_request : (ℕ → Text) → ℕ → ImportRequest → Handler W
  unfolding with_options
  import_request fresh now req =
      or_reply malformed (with_options fresh now req.import_options) req.mappings

  -- `importMappings`
  unfoldable pub import_mappings : (ℕ → Text) → ℕ → Text → Handler W
  unfolding read_body import_request
  import_mappings fresh now raw =
      read_body raw (or_reply malformed (import_request fresh now) (docs.decode_import raw))

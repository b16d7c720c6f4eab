-- ===== src/Admin/Mappings.antt =====
-- internal/admin/mappings.go, mappings_write.go and admin.go: the handlers of single mappings and of all.
use mockulus.Prelude.{ℕ, Option, none, some, [], Text, if◌then◌else◌, text_eq}
use mockulus.Stub.{CompiledStub}
use mockulus.Store.{Result, StoredStub, schema_version_of_build}
use mockulus.Match.Builder.{Compilers, splice_delete}
use mockulus.Admin.Defs.{
  StubStore, Documents, Answer, created, updated, done, missing, duplicate_id, malformed, invalid,
  Handler, reply, read_body, call, lookup_stub, or_reply, mapping_id, refresh, splice,
}

abbrev pub stored_stub : Text → ℕ → ℕ → CompiledStub → Text → StoredStub
stored_stub id seq created_at cs doc = record {
  id = id;
  schema_version = schema_version_of_build;
  seq = seq;
  persistent = cs.persistent;
  created_at = created_at;
  mapping = doc;
}

module _ {W : Type 0} (c : Compilers) (docs : Documents) (store : StubStore W) where
  -- The end of `createMapping` and of `updateMapping`: the document is put, the epoch bumped and the
  -- compiled stub spliced in under its identity.
  unfoldable pub put_and_splice : Answer → StoredStub → CompiledStub → Handler W
  unfolding call splice
  put_and_splice answer stored cs = call (store.put_stub stored) (λ _.
      call store.bump_epoch
        (λ _ pod. (answer, splice store (record cs { id = stored.id; seq = stored.seq }) pod)))

  unfoldable pub create_under : ℕ → Text → CompiledStub → Text → Handler W
  unfolding call put_and_splice
  create_under now raw cs id =
      or_reply malformed
        (λ doc.
          call store.next_seq
            (λ seq. put_and_splice (created doc) (stored_stub id seq now cs doc) cs))
        (docs.with_identity raw id)

  unfoldable pub create_compiled : ℕ → Text → Text → CompiledStub → Handler W
  unfolding create_under lookup_stub
  create_compiled now fresh raw cs pod =
      if text_eq cs.id []
      then create_under now raw cs fresh pod
      else lookup_stub store cs.id (create_under now raw cs cs.id) (λ _. reply duplicate_id) pod

  -- `createMapping`, by the clock and what `uuid.NewString` would return.
  unfoldable pub create_mapping : ℕ → Text → Text → Handler W
  unfolding create_compiled read_body
  create_mapping now fresh raw =
      read_body raw (or_reply invalid (create_compiled now fresh raw) (c.compile_mapping raw 0))

  unfoldable pub update_compiled : Text → Text → StoredStub → CompiledStub → Handler W
  unfolding put_and_splice
  update_compiled id raw existing cs =
      or_reply malformed
        (λ doc.
          put_and_splice (updated doc) (stored_stub id existing.seq existing.created_at cs doc) cs)
        (docs.with_identity raw id)

  unfoldable pub update_existing : Text → Text → StoredStub → Handler W
  unfolding update_compiled read_body
  update_existing id raw existing =
      read_body raw
        (or_reply invalid (update_compiled id raw existing) (c.compile_mapping raw existing.seq))

  -- `updateMapping`
  unfoldable pub update_mapping : Text → Text → Handler W
  unfolding update_existing mapping_id lookup_stub
  update_mapping segment raw =
      mapping_id docs segment (λ id. lookup_stub store id (reply missing) (update_existing id raw))

  unfoldable pub delete_found : Text → StoredStub → Handler W
  unfolding call
  delete_found id existing = call (store.delete_stub id) (λ _.
      call store.bump_epoch
        (λ _ pod. (done, record pod { builder = splice_delete id pod.builder })))

  -- `deleteMapping`
  unfoldable pub delete_mapping : Text → Handler W
  unfolding mapping_id lookup_stub delete_found
  delete_mapping segment =
      mapping_id docs segment (λ id. lookup_stub store id (reply missing) (delete_found id))

  -- A write to all stubs, the epoch bumped and the snapshot rebuilt.
  unfoldable pub write_all : (W → Result (Unit {0}) × W) → Handler W
  unfolding call refresh
  write_all op = call op (λ _. call store.bump_epoch (λ _ pod. (done, refresh c store pod)))

  -- `deleteAllMappings`, `resetMappings` and `saveMappings`
  unfoldable pub delete_all_mappings : Handler W
  unfolding write_all
  delete_all_mappings = write_all store.delete_all_stubs

  unfoldable pub reset_mappings : Handler W
  unfolding write_all
  reset_mappings = write_all store.delete_ephemeral_stubs

  unfoldable pub save_mappings : Handler W
  unfolding write_all
  save_mappings = write_all store.mark_all_persistent

  -- A sweep of what the deployment has no driver for is passed over.
  unfoldable pub sweep : Option (W → Result (Unit {0}) × W) → Handler W → Handler W
  unfolding call
  sweep none next = next
  sweep (some op) next = call op (λ _. next)

  -- `resetAll`, by the journal and the scenarios that there may be.
  unfoldable pub handle_reset_all :
      Option (W → Result (Unit {0}) × W) → Option (W → Result (Unit {0}) × W) → Handler W
  unfolding call refresh sweep
  handle_reset_all clear_journal reset_scenarios = call store.delete_ephemeral_stubs (λ _.
      call store.bump_epoch
        (λ _ pod. sweep clear_journal (sweep reset_scenarios (reply done)) (refresh c store pod)))

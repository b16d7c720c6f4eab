-- ===== src/Tests/Administration.antt =====
-- Requests of the admin API on concrete stores.
use mockulus.Prelude.{
  ◌≡◌, refl, true, false, none, some, [], ◌∷◌, List, Text, codes, text_eq, arith, if◌then◌else◌,
}
use mockulus.Prelude.Map.{lookup, insert}
use mockulus.Store.{StoredStub, ok}
use mockulus.Store.Memory.{Store, new, put_stub, get_stub}
use mockulus.Match.Builder.{Compilers, new_builder, mem}
use mockulus.Admin.{Documents, Pod, Pending, updated, update_mapping, apply_items, existing_of}
use mockulus.Admin.Memory.{memory}
use mockulus.Admin.Clean.{is_rejection, import_batch}
use mockulus.Admin.Rejected.{serve, serve-rejected}
use mockulus.Admin.Update.{IsReplaced, update_mapping-IsReplaced}
use mockulus.Admin.ImportOrder.{IsBatch, apply_items-IsBatch}
use mockulus.Tests.Fixtures.{toy, first, document}

-- Compilers that refuse one document.
abbrev strict : Compilers
strict = record toy {
  compile_mapping = λ mapping seq.
      if text_eq mapping (codes "bad") then none else some (record first { id = []; seq = seq });
}

-- Every body is an import of two documents, the second of which is bad.
abbrev docs : Documents
docs = record {
  parse_uuid = λ segment. some segment;
  with_identity = λ raw id. some raw;
  metadata = λ mapping. [];
  compile_matcher = λ raw. none;
  decode_import = λ raw.
      some (record { mappings = some (codes "{}" ∷ codes "bad" ∷ []); import_options = none });
}

abbrev an_id : Text
an_id = codes "a1000008-0000-4000-8000-000000000001"

abbrev stored : StoredStub
stored = record document { id = an_id; seq = 7; created_at = 3 }

abbrev pod : Pod Store
pod = record { world = (put_stub 5 stored (new 0)).1; builder = new_builder }

batch_invalid :
    is_rejection
      (serve strict docs (memory (λ m. none) 9) (import_batch (λ i. codes "f") 9 (codes "x")) pod).0
    ≡ true
unfolding serve text_eq lookup memory
batch_invalid = refl

serve-rejected_example :
    (serve strict docs (memory (λ m. none) 9) (import_batch (λ i. codes "f") 9 (codes "x")) pod).1
    ≡ pod
unfolding memory
serve-rejected_example =
    serve-rejected strict docs (memory (λ m. none) 9) (λ id w. refl)
      (import_batch (λ i. codes "f") 9 (codes "x")) pod batch_invalid

is_found : get_stub 9 an_id pod.world ≡ ok stored
unfolding get_stub put_stub text_eq lookup insert
is_found = refl

is_updated :
    (update_mapping strict docs (memory (λ m. none) 9) an_id (codes "{\"priority\":1}") pod).0
    ≡ updated (codes "{\"priority\":1}")
unfolding update_mapping memory put_stub text_eq lookup insert
is_updated = refl

update_mapping-IsReplaced_example :
    IsReplaced strict docs
      (λ m. none)
      9
      an_id
      (codes "{\"priority\":1}")
      (codes "{\"priority\":1}")
      stored
      pod
      (update_mapping strict docs (memory (λ m. none) 9) an_id (codes "{\"priority\":1}") pod).1
update_mapping-IsReplaced_example =
    update_mapping-IsReplaced strict docs (λ m. none) 9 an_id (codes "{\"priority\":1}") an_id
      (codes "{\"priority\":1}") stored pod refl refl is_found is_updated

abbrev two_items : List Pending
two_items =
    record { id = codes "a"; doc = codes "{}"; compiled = first }
    ∷ record { id = codes "b"; doc = codes "{}"; compiled = first }
    ∷ []

apply_items-IsBatch_example :
    IsBatch 0 two_items (apply_items toy docs (memory (λ m. none) 9) false 9 [] two_items (new 0))
unfolding mem text_eq lookup existing_of
apply_items-IsBatch_example =
    apply_items-IsBatch toy docs (λ m. none) 9 false [] two_items (new 0)
      (refl, refl, refl, (refl, refl, refl, tt)) (omega arith)

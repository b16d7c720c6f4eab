-- ===== src/Admin/Metadata.antt =====
-- internal/admin/mappings_write.go: the stubs found and removed by their metadata.
use mockulus.Prelude.{Bool, not, ◌&&◌, List, [], ◌∷◌, map, Text, ltb, text_eq, keep}
use mockulus.Prelude.Sort
use mockulus.Stub.{Matcher, document}
use mockulus.Store.{StoredStub}
use mockulus.Match.Builder.{Compilers}
use mockulus.Admin.Defs.{
  StubStore, Documents, listed, invalid, Handler, read_body, call, or_reply, refresh,
}

module _ {W : Type 0} (c : Compilers) (docs : Documents) (store : StubStore W) where
  -- A stub without metadata is never matched.
  unfoldable pub has_metadata : Matcher → StoredStub → Bool
  has_metadata matcher s =
      let meta = docs.metadata s.mapping in not (text_eq meta []) && matcher.matches (document meta)

  -- The stubs that a matcher picks, in the order of registration.
  unfoldable pub picked : Matcher → List StoredStub → List StoredStub
  unfolding has_metadata
  picked matcher stubs =
      Sort.sort (λ (a b : StoredStub). ltb a.seq b.seq) (keep (has_metadata matcher) stubs)

  -- `metadataMatch`
  unfoldable pub metadata_match : Text → (List StoredStub → Handler W) → Handler W
  unfolding picked read_body call
  metadata_match raw next = read_body raw (
      or_reply invalid (λ matcher. call store.load_all (λ loaded. next (picked matcher loaded.0)))
        (docs.compile_matcher raw))

  abbrev pub documents_of : List StoredStub → List Text
  documents_of = map (λ s. s.mapping)

  -- `findByMetadata`
  unfoldable pub find_by_metadata : Text → Handler W
  unfolding metadata_match
  find_by_metadata raw = metadata_match raw (λ matched pod. (listed (documents_of matched), pod))

  -- The epoch is bumped only where something was removed.
  unfoldable pub after_removal : List StoredStub → Handler W
  unfolding call refresh
  after_removal [] pod = (listed [], pod)
  after_removal (s ∷ stubs) pod =
      call store.bump_epoch (λ _ p. (listed (documents_of (s ∷ stubs)), refresh c store p)) pod

  unfoldable pub remove_each : Handler W → List StoredStub → Handler W
  unfolding call
  remove_each next [] = next
  remove_each next (s ∷ stubs) = call (store.delete_stub s.id) (λ _. remove_each next stubs)

  -- `removeByMetadata`
  unfoldable pub remove_by_metadata : Text → Handler W
  unfolding metadata_match remove_each after_removal
  remove_by_metadata raw =
      metadata_match raw (λ matched. remove_each (after_removal matched) matched)

-- ===== src/Admin/Update.antt =====
-- internal/admin/mappings_write.go: what `updateMapping` does on the in-memory driver.
use mockulus.Prelude.{
  ℕ, ◌≡◌, refl, sym, ap, ◌∙◌, subst, Bool, true, false, some, Text, if◌then◌else◌, ◌==◌, length,
  text_eq, arith,
}
use mockulus.Prelude.Map.{lookup, lookup-insert}
use mockulus.Stub.{CompiledStub}
use mockulus.Store.{Result, ok, StoredStub, StoredFile}
use mockulus.Store.Memory.{Store, PersistentMapping, entry_of, found_live, get_stub, bump_epoch}
use mockulus.Match.Builder.{Compilers, splice_stub}
use mockulus.Admin.Defs.{
  Documents, updated, malformed, invalid, missing, not_uuid, Pod, Handler, reply, or_reply,
  lookup_stub, after_lookup, mapping_id, canonical_id_len,
}
use mockulus.Admin.Mappings.{
  stored_stub, put_and_splice, update_compiled, update_existing, update_mapping,
}
use mockulus.Admin.Memory.{memory}
use mockulus.Admin.Written.{
  with_entry, or_reply-went_on, read_body-went_on, IsWritten, put_and_splice-memory,
}

module _ (c : Compilers) (docs : Documents) (pm : PersistentMapping) (now : ℕ) where
  -- What an update has found and written.
  record IsUpdated (id raw : Text) (existing : StoredStub) (doc : Text) (pod pod' : Pod Store)
      : Type 0 where
    compiled : CompiledStub
    compiles : c.compile_mapping raw existing.seq ≡ some compiled
    stamped : docs.with_identity raw id ≡ some doc
    written :
        IsWritten c docs pm now
          (stored_stub id existing.seq existing.created_at compiled doc)
          compiled
          pod
          pod'

  updated_inj : (d doc : Text) → updated d ≡ updated doc → d ≡ doc
  updated_inj d doc e = ground (arith, e)

  stamped-memory :
      (id raw : Text) (existing : StoredStub) (cs : CompiledStub) (pod : Pod Store) (doc : Text)
      → c.compile_mapping raw existing.seq ≡ some cs
      → (update_compiled c docs (memory pm now) id raw existing cs pod).0 ≡ updated doc
      → IsUpdated id raw existing doc pod
          (update_compiled c docs (memory pm now) id raw existing cs pod).1
  unfolding update_compiled
  stamped-memory id raw existing cs pod doc compiles e =
      let put : Text → Handler Store = λ d.
        put_and_splice c docs (memory pm now) (updated d)
          (stored_stub id existing.seq existing.created_at cs d) cs in
      let (d, stamped, went) =
        or_reply-went_on malformed put (docs.with_identity raw id) pod doc refl e in
      let (answered, written) =
        put_and_splice-memory c docs pm now (updated d)
          (stored_stub id existing.seq existing.created_at cs d) cs pod doc
          (sym (ap (λ r. r.0) went) ∙ e) in
      let same = updated_inj d doc answered in
      subst (λ r. IsUpdated id raw existing doc pod r.1) (sym went)
        (record {
          compiled = cs;
          compiles = compiles;
          stamped = stamped ∙ ap some same;
          written =
              subst
                (λ x.
                  IsWritten c docs pm now (stored_stub id existing.seq existing.created_at cs x) cs
                    pod (put d pod).1)
                same written;
        })

  compiled-memory :
      (id raw : Text) (existing : StoredStub) (pod : Pod Store) (doc : Text)
      → (or_reply invalid
          (update_compiled c docs (memory pm now) id raw existing)
          (c.compile_mapping raw existing.seq)
          pod).0
        ≡ updated doc
      → IsUpdated id raw existing doc pod
          (or_reply invalid
            (update_compiled c docs (memory pm now) id raw existing)
            (c.compile_mapping raw existing.seq)
            pod).1
  compiled-memory id raw existing pod doc e =
      let (cs, compiles, went) =
        or_reply-went_on invalid (update_compiled c docs (memory pm now) id raw existing)
          (c.compile_mapping raw existing.seq) pod doc refl e in
      subst (λ r. IsUpdated id raw existing doc pod r.1) (sym went)
        (stamped-memory id raw existing cs pod doc compiles (sym (ap (λ r. r.0) went) ∙ e))

  update_existing-memory :
      (id raw : Text) (existing : StoredStub) (pod : Pod Store) (doc : Text)
      → (update_existing c docs (memory pm now) id raw existing pod).0 ≡ updated doc
      → IsUpdated id raw existing doc pod
          (update_existing c docs (memory pm now) id raw existing pod).1
  unfolding update_existing
  update_existing-memory id raw existing pod doc e =
      let compile =
        or_reply invalid (update_compiled c docs (memory pm now) id raw existing)
          (c.compile_mapping raw existing.seq) in
      let read = read_body-went_on raw compile pod doc e in
      subst (λ r. IsUpdated id raw existing doc pod r.1) (sym read)
        (compiled-memory id raw existing pod doc (sym (ap (λ r. r.0) read) ∙ e))

  -- The store and the builder after a stub was replaced in its place.
  pub record IsReplaced (id raw doc : Text) (existing : StoredStub) (pod pod' : Pod Store)
      : Type 0 where
    pub compiled : CompiledStub
    pub compiles : c.compile_mapping raw existing.seq ≡ some compiled
    pub found :
        (j : Text)
        → get_stub now j pod'.world ≡ (
            if text_eq id j
            then ok (stored_stub id existing.seq existing.created_at compiled doc)
            else get_stub now j pod.world)
    pub counter : pod'.world.seq ≡ pod.world.seq
    pub file : Result StoredFile
    pub builder :
        pod'.builder
        ≡ splice_stub file (record compiled { id = id; seq = existing.seq }) pod.builder

  found-put :
      (stored : StoredStub) (s : Store) (j : Text)
      → get_stub now j (with_entry now stored s)
        ≡ (if text_eq stored.id j then ok stored else get_stub now j s)
  unfolding get_stub
  found-put stored s j =
      ap (found_live now) (lookup-insert stored.id j (entry_of s.ephemeral_ttl now stored) s.stubs)
      ∙ live (text_eq stored.id j)
    where
      live :
          (b : Bool)
          → found_live now
              (if b then some (entry_of s.ephemeral_ttl now stored) else lookup j s.stubs)
            ≡ (if b then ok stored else found_live now (lookup j s.stubs))
      live true = ground arith
      live false = refl

  IsUpdated-IsReplaced :
      (id raw : Text) (existing : StoredStub) (doc : Text) (pod pod' : Pod Store)
      → IsUpdated id raw existing doc pod pod'
      → IsReplaced id raw doc existing pod pod'
  unfolding bump_epoch get_stub
  IsUpdated-IsReplaced id raw existing doc pod pod' h = record {
    compiled = h.compiled;
    compiles = h.compiles;
    found = λ j.
        ap (get_stub now j) h.written.spliced.world
        ∙ found-put (stored_stub id existing.seq existing.created_at h.compiled doc) pod.world j;
    counter = ap (λ w. w.seq) h.written.spliced.world;
    file = h.written.spliced.file;
    builder = h.written.spliced.builder;
  }

  -- The path names the stub, and it is there.
  update_mapping-found :
      (segment raw id : Text) (existing : StoredStub) (pod : Pod Store)
      → docs.parse_uuid segment ≡ some id
      → length segment ≡ canonical_id_len
      → get_stub now id pod.world ≡ ok existing
      → update_mapping c docs (memory pm now) segment raw pod
        ≡ update_existing c docs (memory pm now) id raw existing pod
  unfolding update_mapping mapping_id lookup_stub memory
  update_mapping-found segment raw id existing pod parsed long found =
      ap (λ o. or_reply not_uuid in_length o pod) parsed
      ∙ ap (λ n. if n == canonical_id_len then looked_up pod else (missing, pod)) long
      ∙ ap (λ r. after_lookup (reply missing) update r pod) found
    where
      update : StoredStub → Handler Store
      update = update_existing c docs (memory pm now) id raw

      looked_up : Handler Store
      looked_up = lookup_stub (memory pm now) id (reply missing) update

      in_length : Text → Handler Store
      in_length i p =
          if length segment == canonical_id_len
          then lookup_stub (memory pm now) i (reply missing)
              (update_existing c docs (memory pm now) i raw) p
          else (missing, p)

  -- A request to update that names a stub the in-memory driver has, and that is answered with a document:
  -- the store has that document under the identifier with the sequence and the time of creation that it
  -- had, every other stub as before and the next sequence as before, and the pod serves its snapshot with
  -- the stub, compiled from the body, spliced in at that sequence.
  pub update_mapping-IsReplaced :
      (segment raw id doc : Text) (existing : StoredStub) (pod : Pod Store)
      → docs.parse_uuid segment ≡ some id
      → length segment ≡ canonical_id_len
      → get_stub now id pod.world ≡ ok existing
      → (update_mapping c docs (memory pm now) segment raw pod).0 ≡ updated doc
      → IsReplaced id raw doc existing pod (update_mapping c docs (memory pm now) segment raw pod).1
  update_mapping-IsReplaced segment raw id doc existing pod parsed long found e =
      let same = update_mapping-found segment raw id existing pod parsed long found in
      subst (λ r. IsReplaced id raw doc existing pod r.1) (sym same)
        (IsUpdated-IsReplaced id raw existing doc pod _
          (update_existing-memory id raw existing pod doc (sym (ap (λ r. r.0) same) ∙ e)))

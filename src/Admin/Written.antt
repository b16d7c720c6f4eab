-- ===== src/Admin/Written.antt =====
-- internal/admin: the writes of the handlers on the in-memory driver.
use mockulus.Prelude.{
  ℕ, ◌≡◌, refl, sym, ap, ◌∙◌, subst, true, false, Option, none, some, [], ◌∷◌, Text, text_eq, arith,
  Bool-cases, inl, inr,
}
use mockulus.Prelude.Map.{insert}
use mockulus.Stub.{CompiledStub}
use mockulus.Store.{StoreError, Result, ok, err, StoredStub, StoredFile}
use mockulus.Store.Memory.{Store, PersistentMapping, entry_of, put_stub, bump_epoch, get_file}
use mockulus.Match.Builder.{Compilers, splice_stub}
use mockulus.Admin.Defs.{
  Documents, Answer, updated, Pod, Handler, read_body, call, or_reply, splice, after, moved_to,
  store_failed,
}
use mockulus.Admin.Mappings.{put_and_splice}
use mockulus.Admin.Memory.{memory}
use mockulus.Admin.Clean.{is_rejection}

abbrev pub with_entry : ℕ → StoredStub → Store → Store
with_entry now stored s = record s {
  stubs = insert stored.id (entry_of s.ephemeral_ttl now stored) s.stubs;
}

-- Where a reply was not given, the handler went on.
pub or_reply-went_on :
    {W A : Type 0} (a : Answer) (next : A → Handler W) (o : Option A) (pod : Pod W) (doc : Text)
    → is_rejection a ≡ true
    → (or_reply a next o pod).0 ≡ updated doc
    → (x : A) × o ≡ some x × or_reply a next o pod ≡ next x pod
or_reply-went_on a next none pod doc h e = ground (arith, h, e)
or_reply-went_on a next (some x) pod doc h e = (x, refl, refl)

pub read_body-went_on :
    {W : Type 0} (raw : Text) (next : Handler W) (pod : Pod W) (doc : Text)
    → (read_body raw next pod).0 ≡ updated doc
    → read_body raw next pod ≡ next pod
unfolding read_body
read_body-went_on [] next pod doc e = ground (arith, e)
read_body-went_on (b ∷ raw) next pod doc e = ground (arith, e)

pub call-ok :
    {W A : Type 0} (op : W → Result A × W) (next : A → Handler W) (pod : Pod W) (a : A) (w : W)
    → op pod.world ≡ (ok a, w)
    → call op next pod ≡ next a (moved_to w pod)
unfolding call
call-ok op next pod a w e = ap (λ r. after next r.0 (moved_to r.1 pod)) e

pub call-err :
    {W A : Type 0} (op : W → Result A × W) (next : A → Handler W) (pod : Pod W) (f : StoreError)
    (w : W)
    → op pod.world ≡ (err f, w)
    → call op next pod ≡ (store_failed f, moved_to w pod)
unfolding call
call-err op next pod f w e = ap (λ r. after next r.0 (moved_to r.1 pod)) e

pub put-refused :
    (now : ℕ) (stored : StoredStub) (s : Store)
    → text_eq stored.id [] ≡ true
    → put_stub now stored s ≡ (err StoreError.other, s)
unfolding put_stub
put-refused now stored s t = rw t refl

pub put-taken :
    (now : ℕ) (stored : StoredStub) (s : Store)
    → text_eq stored.id [] ≡ false
    → put_stub now stored s ≡ (ok tt, with_entry now stored s)
unfolding put_stub
put-taken now stored s t = rw t refl

module _ (c : Compilers) (docs : Documents) (pm : PersistentMapping) (now : ℕ) where
  -- A splice reads a file at most.
  pub record IsSpliced (cs : CompiledStub) (pod pod' : Pod Store) : Type 0 where
    pub world : pod'.world ≡ pod.world
    pub file : Result StoredFile
    pub builder : pod'.builder ≡ splice_stub file cs pod.builder

  pub splice-memory :
      (cs : CompiledStub) (pod : Pod Store) → IsSpliced cs pod (splice (memory pm now) cs pod)
  unfolding splice memory
  splice-memory cs pod = elim (Bool-cases (text_eq cs.response.body_file_name [])) [
    | inl e ↦
        rw (e, splice) (record { world = refl; file = err StoreError.not_found; builder = refl })
    | inr e ↦
        rw (e, splice)
          (record {
            world = refl;
            file = get_file cs.response.body_file_name pod.world;
            builder = refl;
          })
  ]

  -- The world after the put and the bump.
  abbrev pub after_put : StoredStub → Store → Store
  after_put stored s = (bump_epoch (with_entry now stored s)).1

  pub record IsWritten (stored : StoredStub) (cs : CompiledStub) (pod pod' : Pod Store)
      : Type 0 where
    pub named : text_eq stored.id [] ≡ false
    pub spliced :
        IsSpliced
          (record cs { id = stored.id; seq = stored.seq })
          (record { world = after_put stored pod.world; builder = pod.builder })
          pod'

  -- After the put.
  abbrev bump_and_splice : Answer → StoredStub → CompiledStub → Unit {0} → Handler Store
  bump_and_splice answer stored cs u = call (memory pm now).bump_epoch (λ n pod.
      (answer, splice (memory pm now) (record cs { id = stored.id; seq = stored.seq }) pod))

  pub put_and_splice-memory :
      (answer : Answer) (stored : StoredStub) (cs : CompiledStub) (pod : Pod Store) (doc : Text)
      → (put_and_splice c docs (memory pm now) answer stored cs pod).0 ≡ updated doc
      → (answer ≡ updated doc)
        × IsWritten stored cs pod (put_and_splice c docs (memory pm now) answer stored cs pod).1
  unfolding put_and_splice memory bump_epoch
  put_and_splice-memory answer stored cs pod doc e = elim (Bool-cases (text_eq stored.id [])) [
    | inl t ↦
        let failed =
          call-err (put_stub now stored) (bump_and_splice answer stored cs) pod StoreError.other
            pod.world (put-refused now stored pod.world t) in
        ground (arith, sym (ap (λ r. r.0) failed) ∙ e)
    | inr t ↦
        let went =
          call-ok (put_stub now stored) (bump_and_splice answer stored cs) pod tt
            (with_entry now stored pod.world) (put-taken now stored pod.world t) in
        (
          sym (ap (λ r. r.0) went) ∙ e,
          subst (λ r. IsWritten stored cs pod r.1) (sym went)
              (record {
                named = t;
                spliced =
                    splice-memory (record cs { id = stored.id; seq = stored.seq })
                      (record { world = after_put stored pod.world; builder = pod.builder });
              }),
        )
  ]

-- ===== src/Admin/Clean.antt =====
-- internal/admin: handlers that leave a pod alone where they reject a request.
use mockulus.Prelude.{
  ℕ, ◌≡◌, refl, ap, ◌∙◌, Bool, true, false, Option, none, some, [], ◌∷◌, Text, if◌then◌else◌, ◌==◌,
  length, text_eq, arith, Bool-cases, inl, inr,
}
use mockulus.Stub.{CompiledStub}
use mockulus.Store.{Result, ok, err, StoredStub, is_not_found}
use mockulus.Match.Builder.{Compilers}
use mockulus.Admin.Defs.{
  StubStore, canonical_id_len, Documents, Answer, created, updated, missing, not_uuid, duplicate_id,
  malformed, invalid, too_large, Pod, Handler, reply, read_body, after, moved_to, call,
  after_lookup, lookup_stub, or_reply, mapping_id,
}
use mockulus.Admin.Mappings.{
  put_and_splice, create_under, create_compiled, update_compiled, update_existing, delete_found,
}

-- The answers that refuse a request for what it says.
abbrev pub is_rejection : Answer → Bool
is_rejection missing = true
is_rejection not_uuid = true
is_rejection duplicate_id = true
is_rejection malformed = true
is_rejection invalid = true
is_rejection too_large = true
is_rejection _ = false

-- The requests that write mappings of a body.
pub data Request : Type 0 where
  create : (now : ℕ) → (fresh : Text) → (raw : Text) → Request
  update : (segment : Text) → (raw : Text) → Request
  delete : (segment : Text) → Request
  import_batch : (fresh : ℕ → Text) → (now : ℕ) → (raw : Text) → Request

module _ {W : Type 0} where
  abbrev pub Rejects : Handler W → Pod W → Type 0
  Rejects h pod = is_rejection (h pod).0 ≡ true

  -- A handler that leaves the pod alone where it rejects.
  abbrev pub IsClean : Handler W → Type 0
  IsClean h = (pod : Pod W) → Rejects h pod → (h pod).1 ≡ pod

  abbrev pub Accepts : Handler W → Type 0
  Accepts h = (pod : Pod W) → is_rejection (h pod).0 ≡ false

  pub Accepts-IsClean : (h : Handler W) → Accepts h → IsClean h
  Accepts-IsClean h accepts pod e = ground (arith, e, accepts pod)

  pub read_body-IsClean :
      (raw : Text) (next : Handler W) → IsClean next → IsClean (read_body raw next)
  unfolding read_body
  read_body-IsClean [] next clean pod e = refl
  read_body-IsClean (b ∷ raw) next clean pod e = ground (arith, e, clean pod)

  pub or_reply-IsClean :
      {A : Type 0} (a : Answer) (next : A → Handler W) (o : Option A)
      → ((x : A) → IsClean (next x))
      → IsClean (or_reply a next o)
  or_reply-IsClean a next none clean pod e = refl
  or_reply-IsClean a next (some x) clean pod e = clean x pod e

  pub branch-IsClean :
      (b : Bool) (h k : Handler W)
      → IsClean h
      → IsClean k
      → IsClean (λ pod. if b then h pod else k pod)
  branch-IsClean true h k clean_h clean_k = clean_h
  branch-IsClean false h k clean_h clean_k = clean_k

  pub call-Accepts :
      {A : Type 0} (op : W → Result A × W) (next : A → Handler W)
      → ((a : A) → Accepts (next a))
      → Accepts (call op next)
  unfolding call
  call-Accepts op next accepts pod = split (op pod.world).0
    where
      split : (r : Result _) → is_rejection (after next r (moved_to (op pod.world).1 pod)).0 ≡ false
      split (ok a) = accepts a (moved_to (op pod.world).1 pod)
      split (err e) = refl

  pub call-IsClean :
      {A : Type 0} (op : W → Result A × W) (next : A → Handler W)
      → ((a : A) → Accepts (next a))
      → IsClean (call op next)
  call-IsClean op next accepts = Accepts-IsClean (call op next) (call-Accepts op next accepts)

  module _ (c : Compilers) (docs : Documents) (store : StubStore W)
      (reads : (id : Text) (w : W) → (store.get_stub id w).1 ≡ w) where
    pub after_lookup-IsClean :
        (absent : Handler W) (found : StoredStub → Handler W) (r : Result StoredStub)
        → IsClean absent
        → ((s : StoredStub) → IsClean (found s))
        → IsClean (after_lookup absent found r)
    after_lookup-IsClean absent found (ok s) missed hit pod e = hit s pod e
    after_lookup-IsClean absent found (err f) missed hit pod e =
        elim (Bool-cases (is_not_found f)) [
          | inl t ↦ ground (arith, t, e, missed pod)
          | inr t ↦ ground (arith, t, e)
        ]

    pub lookup_stub-IsClean :
        (id : Text) (absent : Handler W) (found : StoredStub → Handler W)
        → IsClean absent
        → ((s : StoredStub) → IsClean (found s))
        → IsClean (lookup_stub store id absent found)
    unfolding lookup_stub
    lookup_stub-IsClean id absent found missed hit pod e =
        after_lookup-IsClean absent found (store.get_stub id pod.world).0 missed hit
          (moved_to (store.get_stub id pod.world).1 pod) e
        ∙ ap (λ w. moved_to w pod) (reads id pod.world)

    pub mapping_id-IsClean :
        (segment : Text) (next : Text → Handler W)
        → ((id : Text) → IsClean (next id))
        → IsClean (mapping_id docs segment next)
    unfolding mapping_id
    mapping_id-IsClean segment next clean =
        or_reply-IsClean not_uuid _ (docs.parse_uuid segment) (λ id.
          branch-IsClean (length segment == canonical_id_len) (next id) (reply missing) (clean id)
            (λ pod e. refl))

    pub put_and_splice-Accepts :
        (answer : Answer) (stored : StoredStub) (cs : CompiledStub)
        → is_rejection answer ≡ false
        → Accepts (put_and_splice c docs store answer stored cs)
    unfolding put_and_splice
    put_and_splice-Accepts answer stored cs h =
        call-Accepts (store.put_stub stored) _ (λ u. call-Accepts store.bump_epoch _ (λ n pod. h))

    pub create_under-IsClean :
        (now : ℕ) (raw : Text) (cs : CompiledStub) (id : Text)
        → IsClean (create_under c docs store now raw cs id)
    unfolding create_under
    create_under-IsClean now raw cs id =
        or_reply-IsClean malformed _ (docs.with_identity raw id) (λ doc.
          call-IsClean store.next_seq _ (λ seq. put_and_splice-Accepts (created doc) _ cs refl))

    pub create_compiled-IsClean :
        (now : ℕ) (fresh raw : Text) (cs : CompiledStub)
        → IsClean (create_compiled c docs store now fresh raw cs)
    unfolding create_compiled
    create_compiled-IsClean now fresh raw cs =
        branch-IsClean (text_eq cs.id []) _ _ (create_under-IsClean now raw cs fresh)
          (lookup_stub-IsClean cs.id _ _ (create_under-IsClean now raw cs cs.id) (λ s pod e. refl))

    pub update_compiled-IsClean :
        (id raw : Text) (existing : StoredStub) (cs : CompiledStub)
        → IsClean (update_compiled c docs store id raw existing cs)
    unfolding update_compiled
    update_compiled-IsClean id raw existing cs =
        or_reply-IsClean malformed _ (docs.with_identity raw id)
          (λ doc. Accepts-IsClean _ (put_and_splice-Accepts (updated doc) _ cs refl))

    pub update_existing-IsClean :
        (id raw : Text) (existing : StoredStub)
        → IsClean (update_existing c docs store id raw existing)
    unfolding update_existing
    update_existing-IsClean id raw existing = read_body-IsClean raw _ (
        or_reply-IsClean invalid _ (c.compile_mapping raw existing.seq)
          (update_compiled-IsClean id raw existing))

    pub delete-Accepts : (id : Text) (s : StoredStub) → Accepts (delete_found c docs store id s)
    unfolding delete_found
    delete-Accepts id s =
        call-Accepts (store.delete_stub id) _ (λ u. call-Accepts store.bump_epoch _ (λ n pod. refl))

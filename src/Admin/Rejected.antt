-- ===== src/Admin/Rejected.antt =====
-- internal/admin: a request that is rejected changes nothing.
use mockulus.Prelude.{
  ℕ, ◌+◌, ◌≡◌, refl, ap, ◌∙◌, Bool, true, false, Option, none, some, List, [], ◌∷◌, Text, text_eq,
  arith, Bool-cases, Option-cases, inl, inr,
}
use mockulus.Prelude.Map.{lookup, insert}
use mockulus.Stub.{CompiledStub}
use mockulus.Store.{Result, ok, err, StoredStub, is_not_found}
use mockulus.Match.Builder.{Compilers}
use mockulus.Admin.Defs.{
  StubStore, ImportOptions, Documents, malformed, invalid, Pod, Handler, reply, moved_to,
}
use mockulus.Admin.Mappings.{create_mapping, update_mapping, delete_mapping}
use mockulus.Admin.Import.{
  Before, Pending, Prepared, unreadable, prepared, add_problem, add_item, Applied, broken, applied,
  stamp, after_probe, probe, prepare_one, prepare, after_apply, after_prepare, import_all,
  with_options, import_request, import_mappings, finish_import, delete_stubs_not_in,
}
use mockulus.Admin.Clean.{
  is_rejection, Request, create, update, delete, import_batch, IsClean, Accepts, Accepts-IsClean,
  read_body-IsClean, or_reply-IsClean, branch-IsClean, call-Accepts, lookup_stub-IsClean,
  mapping_id-IsClean, create_compiled-IsClean, update_existing-IsClean, delete-Accepts,
}

module _ {W : Type 0} (c : Compilers) (docs : Documents) (store : StubStore W) where
  -- The handler of a request.
  unfoldable pub serve : Request → Handler W
  unfolding create_mapping update_mapping delete_mapping import_mappings
  serve (create now fresh raw) = create_mapping c docs store now fresh raw
  serve (update segment raw) = update_mapping c docs store segment raw
  serve (delete segment) = delete_mapping c docs store segment
  serve (import_batch fresh now raw) = import_mappings c docs store fresh now raw

module _ {W : Type 0} (c : Compilers) (docs : Documents) (store : StubStore W)
    (reads : (id : Text) (w : W) → (store.get_stub id w).1 ≡ w) where
  -- The validation of a batch reads alone.
  add_problem_same : (p : Prepared × W) → (add_problem p).1 ≡ p.1
  add_problem_same (unreadable e, w) = refl
  add_problem_same (prepared items problems before, w) = refl

  add_item_same : (item : Pending) (p : Prepared × W) → (add_item item p).1 ≡ p.1
  add_item_same item (unreadable e, w) = refl
  add_item_same item (prepared items problems before, w) = refl

  stamp_same :
      (mapping : Text) (cs : CompiledStub) (id : Text) (rest : Prepared × W)
      → (stamp c docs store mapping cs id rest).1 ≡ rest.1
  unfolding stamp
  stamp_same mapping cs id rest = elim (Option-cases (docs.with_identity mapping id)) [
    | inl e ↦ rw (e, stamp) (add_problem_same rest)
    | inr (doc, e) ↦ rw (e, stamp) (add_item_same _ rest)
  ]

  abbrev ReadsOnly : (Before → W → Prepared × W) → Type 0
  ReadsOnly next = (before : Before) (w : W) → (next before w).1 ≡ w

  after_probe_same :
      (next : Before → W → Prepared × W) (id : Text) (before : Before) (r : Result StoredStub)
      (w : W)
      → ReadsOnly next
      → (after_probe c docs store next id before (r, w)).1 ≡ w
  unfolding after_probe
  after_probe_same next id before (ok s) w same = same (insert id (some s) before) w
  after_probe_same next id before (err f) w same = elim (Bool-cases (is_not_found f)) [
    | inl t ↦ rw t (same (insert id none before) w)
    | inr t ↦ rw t refl
  ]

  probe_same :
      (next : Before → W → Prepared × W) (id : Text)
      → ReadsOnly next
      → ReadsOnly (probe c docs store next id)
  unfolding probe
  probe_same next id same before w = elim (Option-cases (lookup id before)) [
    | inl e ↦
        rw (e, probe)
          (after_probe_same next id before (store.get_stub id w).0 (store.get_stub id w).1 same
            ∙ reads id w)
    | inr (known, e) ↦ rw (e, probe) (same before w)
  ]

  prepare_one_same :
      (mapping fresh : Text) (next : Before → W → Prepared × W) (o : Option CompiledStub)
      → ReadsOnly next
      → ReadsOnly (prepare_one c docs store mapping fresh next o)
  unfolding prepare_one
  prepare_one_same mapping fresh next none same before w =
      add_problem_same (next before w) ∙ same before w
  prepare_one_same mapping fresh next (some cs) same before w =
      elim (Bool-cases (text_eq cs.id [])) [
        | inl t ↦ rw t (stamp_same mapping cs fresh (next before w) ∙ same before w)
        | inr t ↦ rw t (
            stamp_same mapping cs cs.id (probe c docs store next cs.id before w)
            ∙ probe_same next cs.id same before w)
      ]

  prepare_same :
      (fresh : ℕ → Text) (i : ℕ) (mappings : List Text)
      → ReadsOnly (prepare c docs store fresh i mappings)
  unfolding prepare
  prepare_same fresh i [] before w = refl
  prepare_same fresh i (mapping ∷ mappings) before w =
      prepare_one_same mapping (fresh i) (prepare c docs store fresh (i + 1) mappings)
        (c.compile_mapping mapping 0) (prepare_same fresh (i + 1) mappings) before w

  finish-Accepts : Accepts (finish_import c docs store)
  unfolding finish_import
  finish-Accepts = call-Accepts store.bump_epoch _ (λ n pod. refl)

  after_apply-Accepts :
      (remove : Bool) (keep : List Text) (a : Applied)
      → Accepts (after_apply c docs store remove keep a)
  unfolding after_apply
  after_apply-Accepts remove keep (broken e) pod = refl
  after_apply-Accepts true keep (applied batch) pod =
      call-Accepts (delete_stubs_not_in c docs store keep) (λ u. finish_import c docs store)
        (λ u. finish-Accepts) pod
  after_apply-Accepts false keep (applied batch) pod = finish-Accepts pod

  after_prepare-IsClean :
      (ignore remove : Bool) (now : ℕ) (p : Prepared)
      → IsClean (after_prepare c docs store ignore remove now p)
  unfolding after_prepare
  after_prepare-IsClean ignore remove now (unreadable e) pod h = ground (arith, h)
  after_prepare-IsClean ignore remove now (prepared items true before) pod h = refl
  after_prepare-IsClean ignore remove now (prepared items false before) pod h =
      Accepts-IsClean (after_prepare c docs store ignore remove now (prepared items false before))
        (λ q. after_apply-Accepts remove _ _ _) pod h

  import_all-IsClean :
      (fresh : ℕ → Text) (ignore remove : Bool) (now : ℕ) (mappings : List Text)
      → IsClean (import_all c docs store fresh ignore remove now mappings)
  unfolding import_all
  import_all-IsClean fresh ignore remove now mappings pod h =
      let r = prepare c docs store fresh 0 mappings [] pod.world in
      after_prepare-IsClean ignore remove now r.0 (moved_to r.1 pod) h
      ∙ ap (λ w. moved_to w pod) (prepare_same fresh 0 mappings [] pod.world)

  with_options-IsClean :
      (fresh : ℕ → Text) (now : ℕ) (options : Option ImportOptions) (mappings : List Text)
      → IsClean (with_options c docs store fresh now options mappings)
  unfolding with_options
  with_options-IsClean fresh now none mappings = import_all-IsClean fresh false false now mappings
  with_options-IsClean fresh now (some options) mappings =
      branch-IsClean _ (reply malformed) _ (λ pod e. refl)
        (import_all-IsClean fresh _ options.delete_all_not_in_import now mappings)

  -- Whatever the store does, if reading a stub leaves it as it is: a request to create, update, delete or
  -- import mappings that is answered as malformed, invalid, too large, a duplicate, no identifier or not
  -- found, leaves the store and the pod's snapshot and cache as they were.
  pub serve-rejected :
      (request : Request) (pod : Pod W)
      → is_rejection (serve c docs store request pod).0 ≡ true
      → (serve c docs store request pod).1 ≡ pod
  unfolding serve import_request
  serve-rejected (create now fresh raw) = read_body-IsClean raw _ (
      or_reply-IsClean invalid _ (c.compile_mapping raw 0)
        (create_compiled-IsClean c docs store reads now fresh raw))
  serve-rejected (update segment raw) = mapping_id-IsClean c docs store reads segment _ (λ id.
      lookup_stub-IsClean c docs store reads id _ _ (λ pod e. refl)
        (update_existing-IsClean c docs store reads id raw))
  serve-rejected (delete segment) = mapping_id-IsClean c docs store reads segment _ (λ id.
      lookup_stub-IsClean c docs store reads id _ _ (λ pod e. refl)
        (λ s. Accepts-IsClean _ (delete-Accepts c docs store reads id s)))
  serve-rejected (import_batch fresh now raw) = read_body-IsClean raw _ (
      or_reply-IsClean malformed _ (docs.decode_import raw) (λ req.
        or_reply-IsClean malformed _ req.mappings
          (with_options-IsClean fresh now req.import_options)))

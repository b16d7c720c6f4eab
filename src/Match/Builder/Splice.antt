-- ===== src/Match/Builder/Splice.antt =====
-- internal/match/splice.go: a splice serves what a build of the changed stubs would.
use mockulus.Prelude.Map.{lookup}
use mockulus.Prelude.{
  Option-cases, text_eq, text_eq_iff, text_eq_self, false, subst, ap, ap₂, sym, ◌∙◌, refl, ℕ, ◌≡◌,
  ◌≢◌, Bool, Option, List, [], ◌∷◌, Text, ◌==◌, ==_iff, All, arith, Bool-cases, inl, inr, keep,
  length, ◌≤◌,
}
use mathlib.Core.List.{append-nil}
use mockulus.Prelude.Sort
use mockulus.Prelude.Sort.{sort-sort-append, sort-keep-sort, sort-IsSorted}
use mockulus.Stub.{CompiledStub}
use mockulus.Store.{Result, StoredFile}
use mockulus.Match.Snapshot.{Snapshot, Settings, build_snapshot, precedes, sort_selection_order}
use mockulus.Match.Snapshot.Index.{ordered-build, epoch-build}
use mockulus.Match.Snapshot.Order.{precedes-IsOrder}
use mockulus.Match.Builder.Placed.{IsPlaced, others, IsResolved, sort-splice}
use mockulus.Match.Builder.Defs.{
  inline_body, Builder, splice_ordered, splice_stub, other_id, splice_delete, install, fetched,
  resolve_body_file,
}

-- A builder that serves the snapshot of some stubs.
abbrev pub Serves : List CompiledStub → ℕ → Option Settings → Builder → Type 0
Serves stubs epoch settings b =
    b.served ≡ record (build_snapshot stubs epoch) { settings = settings }

-- A snapshot depends on the order of the stubs by their selection order alone.
build-sort :
    (l m : List CompiledStub) (epoch : ℕ)
    → Sort.sort precedes l ≡ Sort.sort precedes m
    → build_snapshot l epoch ≡ build_snapshot m epoch
unfolding build_snapshot sort_selection_order
build-sort l m epoch h = rw h refl

Serves-ordered :
    (stubs : List CompiledStub) (epoch : ℕ) (settings : Option Settings) (b : Builder)
    → Serves stubs epoch settings b
    → b.served.ordered ≡ Sort.sort precedes stubs
unfolding sort_selection_order
Serves-ordered stubs epoch settings b h = ap (λ s. s.ordered) h ∙ ordered-build stubs epoch

-- Installing stubs serves any list of the same selection order.
install-Serves :
    (ordered l stubs : List CompiledStub) (epoch : ℕ) (settings : Option Settings) (b : Builder)
    → Serves stubs epoch settings b
    → Sort.sort precedes ordered ≡ Sort.sort precedes l
    → Serves l epoch settings (install ordered b)
unfolding install
install-Serves ordered l stubs epoch settings b h same =
    ap₂ (λ (s : Snapshot) (o : Option Settings). record s { settings = o })
      (build-sort ordered l b.served.epoch same
        ∙ ap (build_snapshot l) (ap (λ s. s.epoch) h ∙ epoch-build stubs epoch))
      (ap (λ s. s.settings) h)

-- Resolving a body file keeps what places the stub.
resolved-kept :
    (file : Result StoredFile) (cs : CompiledStub)
    → ((resolve_body_file (fetched file) cs).id ≡ cs.id)
      × ((resolve_body_file (fetched file) cs).seq ≡ cs.seq)
unfolding resolve_body_file inline_body
resolved-kept file cs = elim (Bool-cases (text_eq cs.response.body_file_name [])) [
  | inl e ↦ rw e (refl, refl)
  | inr e ↦ rw e (elim (Option-cases (lookup cs.response.body_file_name (fetched file))) [
    | inl q ↦ rw q (refl, refl)
    | inr (raw, q) ↦ rw q (refl, refl)
  ])
]

resolve-IsResolved :
    (file : Result StoredFile) (cs : CompiledStub)
    → IsResolved file cs (resolve_body_file (fetched file) cs)
unfolding resolve_body_file inline_body lookup
resolve-IsResolved file cs = record {
  unnamed = λ h. rw ((text_eq_iff cs.response.body_file_name []).1 h) refl;
  found = λ f ne at same. rw (named ne, at, same, text_eq_self cs.response.body_file_name) refl;
  lost = λ e ne at. rw (named ne, at) refl;
}
  where
    named : cs.response.body_file_name ≢ [] → text_eq cs.response.body_file_name [] ≡ false
    named ne = ground (arith, text_eq_iff cs.response.body_file_name [], ne)

IsPlaced-resolved :
    (cs r : CompiledStub) (l : List CompiledStub)
    → r.id ≡ cs.id
    → r.seq ≡ cs.seq
    → IsPlaced cs l
    → IsPlaced r l
IsPlaced-resolved cs r l i q p = record {
  once = subst (λ t. length (keep (λ s. text_eq s.id t) l) ≤ 1) (sym i) p.once;
  apart =
      subst (λ t. All (λ s. text_eq s.id t ≡ false → r.seq ≢ s.seq) l) (sym i)
        (subst (λ n. All (λ s. text_eq s.id cs.id ≡ false → n ≢ s.seq) l) (sym q) p.apart);
}

-- Where a builder serves the snapshot of some stubs, of which at most one has the identifier of a stub
-- and none of the others its sequence, splicing that stub in serves the snapshot that a build of the
-- stub and the others makes, with the epoch and the settings of before, and the stub as it is
-- resolved: unchanged where it names no body file, with the bytes of the file where it is read, marked
-- as missing its file where the read fails.
pub splice-rebuild :
    (file : Result StoredFile) (cs : CompiledStub) (stubs : List CompiledStub) (epoch : ℕ)
    (settings : Option Settings) (b : Builder)
    → Serves stubs epoch settings b
    → IsPlaced cs stubs
    → (r : CompiledStub) × IsResolved file cs r
      × Serves (r ∷ others cs stubs) epoch settings (splice_stub file cs b)
unfolding splice_stub
splice-rebuild file cs stubs epoch settings b served placed =
    let r = resolve_body_file (fetched file) cs in
    let kept = resolved-kept file cs in
    let spliced : Sort.sort precedes (splice_ordered r b.served.ordered)
        ≡ Sort.sort precedes (r ∷ others cs stubs) =
      ap (λ l. Sort.sort precedes (splice_ordered r l))
        (Serves-ordered stubs epoch settings b served)
      ∙ sort-splice r stubs (IsPlaced-resolved cs r stubs kept.0 kept.1 placed)
      ∙ ap (λ i. Sort.sort precedes (r ∷ keep (other_id i) stubs)) kept.0 in
    (
      r,
      resolve-IsResolved file cs,
      install-Serves (splice_ordered r b.served.ordered) (r ∷ others cs stubs) stubs epoch settings
          b served spliced,
    )

sort-sort :
    (l : List CompiledStub) → Sort.sort precedes (Sort.sort precedes l) ≡ Sort.sort precedes l
sort-sort l =
    subst (λ m. Sort.sort precedes m ≡ Sort.sort precedes l) (append-nil (Sort.sort precedes l))
      (sort-sort-append precedes-IsOrder l [] ∙ ap (Sort.sort precedes) (append-nil l))

keep-length : (p : CompiledStub → Bool) (l : List CompiledStub) → length (keep p l) ≤ length l
keep-length p [] = omega arith
keep-length p (x ∷ l) = ground (arith, keep-length p l)

keep-all :
    (p : CompiledStub → Bool) (l : List CompiledStub) → length (keep p l) ≡ length l → keep p l ≡ l
keep-all p [] h = refl
keep-all p (x ∷ l) h = ground (arith, keep-length p l, keep-all p l)

-- Deleting a stub from the snapshot of some stubs serves what a build of the others would, with
-- the epoch and the settings of the snapshot before, also where no stub has the identifier.
pub splice_delete-rebuild :
    (id : Text) (stubs : List CompiledStub) (epoch : ℕ) (settings : Option Settings) (b : Builder)
    → Serves stubs epoch settings b
    → Serves (keep (other_id id) stubs) epoch settings (splice_delete id b)
unfolding splice_delete
splice_delete-rebuild id stubs epoch settings b served =
    let ordered = Serves-ordered stubs epoch settings b served in
    let kept : Sort.sort precedes (keep (other_id id) b.served.ordered)
        ≡ Sort.sort precedes (keep (other_id id) stubs) =
      ap (λ l. Sort.sort precedes (keep (other_id id) l)) ordered
      ∙ sort-keep-sort precedes-IsOrder (other_id id) stubs in
    elim (Bool-cases (length (keep (other_id id) b.served.ordered) == length b.served.ordered)) [
      | inl e ↦
          let all = keep-all (other_id id) b.served.ordered ((==_iff _ _).0 e) in
          rw (e, splice_delete)
            (served
              ∙ ap (λ (s : Snapshot). record s { settings = settings })
                  (build-sort stubs (keep (other_id id) stubs) epoch (
                    sym (sort-sort stubs)
                    ∙ ap (Sort.sort precedes) (sym ordered ∙ sym all)
                    ∙ kept)))
      | inr e ↦
          rw (e, splice_delete)
            (install-Serves _ (keep (other_id id) stubs) stubs epoch settings b served kept)
    ]

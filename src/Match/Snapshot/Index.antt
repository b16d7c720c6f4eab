-- ===== src/Match/Snapshot/Index.antt =====
-- internal/match/snapshot.go: what the indexes of a built snapshot hold.
use mathlib.Core.List.{append-nil, append_assoc}
use mockulus.Prelude.{
  ℕ, ◌+◌, ◌≡◌, refl, sym, ap, ◌∙◌, Bool, true, false, ◌&&◌, Option, none, some, List, [], ◌∷◌, ◌++◌,
  Text, text_eq, text_eq_iff, if◌then◌else◌, arith, Bool-cases, inl, inr,
}
use mockulus.Prelude.Map.{Map, lookup, insert, lookup-insert}
use mockulus.Stub.{ScenarioRef, UrlKind, CompiledStub}
use mockulus.Match.Snapshot.Defs.{
  Snapshot, Int32, to_int32, or_empty, slice_at, append_at, key_method, index_key, add_stub,
  add_stubs, build_snapshot, sort_selection_order, index_stub, with_scenario,
}

-- The positions, from `k` on, of the stubs that pass a test.
unfoldable pub positions : (CompiledStub → Bool) → ℕ → List CompiledStub → List Int32
positions p k [] = []
positions p k (cs ∷ rest) =
    let more = positions p (k + 1) rest in if p cs then to_int32 k ∷ more else more

abbrev pub is_full : UrlKind → Bool
is_full UrlKind.exact_full = true
is_full _ = false

abbrev pub is_path : UrlKind → Bool
is_path UrlKind.exact_path = true
is_path _ = false

-- A stub is hashed under a key by its full URL, or by its path, or not at all.
abbrev pub has_full_key : Text → CompiledStub → Bool
has_full_key key cs = is_full cs.url_kind && text_eq (index_key (key_method cs) cs.url_literal) key

abbrev pub has_path_key : Text → CompiledStub → Bool
has_path_key key cs = is_path cs.url_kind && text_eq (index_key (key_method cs) cs.url_literal) key

abbrev pub is_unhashed : UrlKind → Bool
is_unhashed UrlKind.exact_full = false
is_unhashed UrlKind.exact_path = false
is_unhashed _ = true

abbrev one_if : Bool → Int32 → List Int32
one_if b idx = if b then idx ∷ [] else []

slice_at-append_at :
    (k key : Text) (idx : Int32) (m : Map (List Int32))
    → slice_at key (append_at k idx m) ≡ slice_at key m ++ one_if (text_eq k key) idx
unfolding append_at
slice_at-append_at k key idx m =
    ap or_empty (lookup-insert k key (slice_at k m ++ idx ∷ []) m)
    ∙ elim (Bool-cases (text_eq k key)) [
      | inl e ↦ rw e (ap (λ j. slice_at j m ++ idx ∷ []) ((text_eq_iff k key).0 e))
      | inr e ↦ rw e (sym (append-nil _))
    ]

module _ (k key : Text) (idx : Int32) (s : Snapshot) where
  full-index_stub :
      (kind : UrlKind)
      → slice_at key (index_stub kind k idx s).by_full_url
        ≡ slice_at key s.by_full_url ++ one_if (is_full kind && text_eq k key) idx
  full-index_stub UrlKind.exact_full = slice_at-append_at k key idx s.by_full_url
  full-index_stub _ = sym (append-nil _)

  path-index_stub :
      (kind : UrlKind)
      → slice_at key (index_stub kind k idx s).by_path
        ≡ slice_at key s.by_path ++ one_if (is_path kind && text_eq k key) idx
  path-index_stub UrlKind.exact_path = slice_at-append_at k key idx s.by_path
  path-index_stub _ = sym (append-nil _)

  patterns-index_stub :
      (kind : UrlKind)
      → (index_stub kind k idx s).patterns ≡ s.patterns ++ one_if (is_unhashed kind) idx
  patterns-index_stub UrlKind.exact_full = sym (append-nil _)
  patterns-index_stub UrlKind.exact_path = sym (append-nil _)
  patterns-index_stub _ = refl

-- The parts of a snapshot that the indexing of one stub leaves to the index.
with_scenario-eq :
    (o : Option ScenarioRef) (s : Snapshot)
    → ((with_scenario o s).by_full_url ≡ s.by_full_url)
      × ((with_scenario o s).by_path ≡ s.by_path)
      × ((with_scenario o s).patterns ≡ s.patterns)
with_scenario-eq none s = (refl, refl, refl)
with_scenario-eq (some ref) s = (refl, refl, refl)

positions-cons :
    (p : CompiledStub → Bool) (k : ℕ) (cs : CompiledStub) (l : List CompiledStub)
    → one_if (p cs) (to_int32 k) ++ positions p (k + 1) l ≡ positions p k (cs ∷ l)
unfolding positions
positions-cons p k cs l = ground arith

-- A slice that grows at its end, stub by stub, ends with the positions of those that it takes.
abbrev Grows : (Snapshot → List Int32) → (CompiledStub → Bool) → Type 0
Grows slice p =
    (i : ℕ) (cs : CompiledStub) (s : Snapshot)
    → slice (add_stub i cs s) ≡ slice s ++ one_if (p cs) (to_int32 i)

add_stubs-positions :
    (slice : Snapshot → List Int32) (p : CompiledStub → Bool)
    → Grows slice p
    → (k : ℕ) (l : List CompiledStub) (s : Snapshot)
    → slice (add_stubs k l s) ≡ slice s ++ positions p k l
unfolding add_stubs
add_stubs-positions slice p grows k [] s = unfold positions in sym (append-nil _)
add_stubs-positions slice p grows k (cs ∷ l) s =
    add_stubs-positions slice p grows (k + 1) l (add_stub k cs s)
    ∙ ap (λ x. x ++ positions p (k + 1) l) (grows k cs s)
    ∙ append_assoc (slice s) (one_if (p cs) (to_int32 k)) (positions p (k + 1) l)
    ∙ ap (λ x. slice s ++ x) (positions-cons p k cs l)

module _ (key : Text) where
  by_full_url-add :
      (i : ℕ) (cs : CompiledStub) (s : Snapshot)
      → slice_at key (add_stub i cs s).by_full_url
        ≡ slice_at key s.by_full_url ++ one_if (has_full_key key cs) (to_int32 i)
  unfolding add_stub
  by_full_url-add i cs s =
      ap (slice_at key) (with_scenario-eq cs.scenario _).0
      ∙ full-index_stub (index_key (key_method cs) cs.url_literal) key (to_int32 i)
          (record s { by_id = insert cs.id cs s.by_id }) cs.url_kind

  by_path-add :
      (i : ℕ) (cs : CompiledStub) (s : Snapshot)
      → slice_at key (add_stub i cs s).by_path
        ≡ slice_at key s.by_path ++ one_if (has_path_key key cs) (to_int32 i)
  unfolding add_stub
  by_path-add i cs s =
      ap (slice_at key) (with_scenario-eq cs.scenario _).1
      ∙ path-index_stub (index_key (key_method cs) cs.url_literal) key (to_int32 i)
          (record s { by_id = insert cs.id cs s.by_id }) cs.url_kind

patterns-add :
    (i : ℕ) (cs : CompiledStub) (s : Snapshot)
    → (add_stub i cs s).patterns ≡ s.patterns ++ one_if (is_unhashed cs.url_kind) (to_int32 i)
unfolding add_stub
patterns-add i cs s =
    (with_scenario-eq cs.scenario _).2
    ∙ patterns-index_stub (index_key (key_method cs) cs.url_literal) [] (to_int32 i)
        (record s { by_id = insert cs.id cs s.by_id }) cs.url_kind

-- In a built snapshot the slice of a key in the index by full URL holds, in order, the positions
-- of the exact-URL stubs with that key among the stubs in selection order.
pub by_full_url-build :
    (stubs : List CompiledStub) (epoch : ℕ) (key : Text)
    → slice_at key (build_snapshot stubs epoch).by_full_url
      ≡ positions (has_full_key key) 0 (sort_selection_order stubs)
unfolding build_snapshot lookup
by_full_url-build stubs epoch key =
    add_stubs-positions (λ s. slice_at key s.by_full_url) (has_full_key key) (by_full_url-add key) 0
      (sort_selection_order stubs) _

pub by_path-build :
    (stubs : List CompiledStub) (epoch : ℕ) (key : Text)
    → slice_at key (build_snapshot stubs epoch).by_path
      ≡ positions (has_path_key key) 0 (sort_selection_order stubs)
unfolding build_snapshot lookup
by_path-build stubs epoch key =
    add_stubs-positions (λ s. slice_at key s.by_path) (has_path_key key) (by_path-add key) 0
      (sort_selection_order stubs) _

pub patterns-build :
    (stubs : List CompiledStub) (epoch : ℕ)
    → (build_snapshot stubs epoch).patterns
      ≡ positions (λ cs. is_unhashed cs.url_kind) 0 (sort_selection_order stubs)
unfolding build_snapshot lookup
patterns-build stubs epoch =
    add_stubs-positions (λ s. s.patterns) (λ cs. is_unhashed cs.url_kind) patterns-add 0
      (sort_selection_order stubs) _

with_scenario-ordered :
    (o : Option ScenarioRef) (s : Snapshot)
    → ((with_scenario o s).ordered ≡ s.ordered) × ((with_scenario o s).epoch ≡ s.epoch)
with_scenario-ordered none s = (refl, refl)
with_scenario-ordered (some ref) s = (refl, refl)

index_stub-ordered :
    (kind : UrlKind) (k : Text) (idx : Int32) (s : Snapshot)
    → ((index_stub kind k idx s).ordered ≡ s.ordered) × ((index_stub kind k idx s).epoch ≡ s.epoch)
index_stub-ordered UrlKind.exact_full k idx s = (refl, refl)
index_stub-ordered UrlKind.exact_path k idx s = (refl, refl)
index_stub-ordered _ k idx s = (refl, refl)

add_stub-ordered :
    (i : ℕ) (cs : CompiledStub) (s : Snapshot)
    → ((add_stub i cs s).ordered ≡ s.ordered) × ((add_stub i cs s).epoch ≡ s.epoch)
unfolding add_stub
add_stub-ordered i cs s =
    let (o, e) = with_scenario-ordered cs.scenario _ in
    let (o', e') = index_stub-ordered cs.url_kind _ _ _ in (o ∙ o', e ∙ e')

add_stubs-ordered :
    (k : ℕ) (l : List CompiledStub) (s : Snapshot)
    → ((add_stubs k l s).ordered ≡ s.ordered) × ((add_stubs k l s).epoch ≡ s.epoch)
unfolding add_stubs add_stub
add_stubs-ordered k [] s = (refl, refl)
add_stubs-ordered k (cs ∷ l) s =
    let (o, e) = add_stubs-ordered (k + 1) l (add_stub k cs s) in
    let (o', e') = add_stub-ordered k cs s in (o ∙ o', e ∙ e')

pub ordered-build :
    (stubs : List CompiledStub) (epoch : ℕ)
    → (build_snapshot stubs epoch).ordered ≡ sort_selection_order stubs
unfolding build_snapshot
ordered-build stubs epoch = (add_stubs-ordered 0 (sort_selection_order stubs) _).0

pub epoch-build :
    (stubs : List CompiledStub) (epoch : ℕ) → (build_snapshot stubs epoch).epoch ≡ epoch
unfolding build_snapshot
epoch-build stubs epoch = (add_stubs-ordered 0 (sort_selection_order stubs) _).1

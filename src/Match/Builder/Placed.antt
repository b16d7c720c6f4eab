-- ===== src/Match/Builder/Placed.antt =====
-- internal/match/splice.go: where the stub that is spliced in stands, and its body file.
use mockulus.Prelude.{
  subst, ap, sym, ◌∙◌, refl, ◌≡◌, ◌≢◌, ◌≤◌, true, false, List, [], ◌∷◌, ◌++◌, map, text_eq, All,
  arith, Bool-cases, inl, inr, keep, length,
}
use mockulus.Prelude.Sort
use mockulus.Prelude.Sort.{insert_comm, sort-keep-sort, All-sort, length-sort}
use mockulus.Stub.{CompiledStub}
use mockulus.Store.{Result, ok, err, StoreError, StoredFile}
use mockulus.Match.Snapshot.{precedes}
use mockulus.Match.Snapshot.Order.{precedes-IsOrder, seq-Apart}
use mockulus.Match.Builder.Defs.{same_id, replace_by, any_with_id, splice_ordered, other_id}

-- At most one of some stubs has the identifier of a stub, and none that has another identifier has its
-- sequence.
pub record IsPlaced (cs : CompiledStub) (stubs : List CompiledStub) : Type 0 where
  pub once : length (keep (same_id cs) stubs) ≤ 1
  pub apart : All (λ s. text_eq s.id cs.id ≡ false → cs.seq ≢ s.seq) stubs

-- The stubs of other identifiers.
abbrev pub others : CompiledStub → List CompiledStub → List CompiledStub
others cs = keep (other_id cs.id)

no_other :
    (cs : CompiledStub) (l : List CompiledStub)
    → length (keep (same_id cs) l) ≡ 0
    → (any_with_id cs l ≡ false) × (map (replace_by cs) l ≡ l) × (others cs l ≡ l)
unfolding any_with_id
no_other cs [] h = (refl, refl, refl)
no_other cs (x ∷ l) h = elim (Bool-cases (text_eq x.id cs.id)) [
  | inl e ↦ absurd (taken e h)
  | inr e ↦
      let r = no_other cs l (passed e h) in rw e (r.0, ap (λ t. x ∷ t) r.1, ap (λ t. x ∷ t) r.2)
]
  where
    taken : text_eq x.id cs.id ≡ true → length (keep (same_id cs) (x ∷ l)) ≡ 0 → ⊥
    taken e h = ground (arith, e, h)

    passed :
        text_eq x.id cs.id ≡ false
        → length (keep (same_id cs) (x ∷ l)) ≡ 0
        → length (keep (same_id cs) l) ≡ 0
    passed e h = ground (arith, e, h)

tail-IsPlaced :
    (cs x : CompiledStub) (l : List CompiledStub)
    → text_eq x.id cs.id ≡ false
    → IsPlaced cs (x ∷ l)
    → IsPlaced cs l
tail-IsPlaced cs x l e p = record { once = fewer e p.once; apart = p.apart.1 }
  where
    fewer :
        text_eq x.id cs.id ≡ false
        → length (keep (same_id cs) (x ∷ l)) ≤ 1
        → length (keep (same_id cs) l) ≤ 1
    fewer e k = ground (arith, e, k)

-- The sorted list with the stub replaced is that of the others with the stub inserted.
sort-replaced :
    (cs : CompiledStub) (l : List CompiledStub)
    → IsPlaced cs l
    → any_with_id cs l ≡ true
    → Sort.sort precedes (map (replace_by cs) l)
      ≡ Sort.insert precedes cs (Sort.sort precedes (others cs l))
unfolding any_with_id Sort.sort
sort-replaced cs [] p h = absurd (ground arith)
sort-replaced cs (x ∷ l) p h = elim (Bool-cases (text_eq x.id cs.id)) [
  | inl e ↦
      let r = no_other cs l (alone e p.once) in
      rw e (ap (λ m. Sort.insert precedes cs (Sort.sort precedes m)) (r.1 ∙ sym r.2))
  | inr e ↦
      let below = sort-replaced cs l (tail-IsPlaced cs x l e p) (there e h) in
      rw e (
        ap (Sort.insert precedes x) below
        ∙ insert_comm precedes-IsOrder x cs (Sort.sort precedes (others cs l))
            (seq-Apart x cs (λ k. p.apart.0 e (sym k))))
]
  where
    alone :
        text_eq x.id cs.id ≡ true
        → length (keep (same_id cs) (x ∷ l)) ≤ 1
        → length (keep (same_id cs) l) ≡ 0
    alone e k = ground (arith, e, k)

    there : text_eq x.id cs.id ≡ false → any_with_id cs (x ∷ l) ≡ true → any_with_id cs l ≡ true
    there e k = ground (arith, e, k)

-- So is that with the stub behind it, where none has the identifier.
sort-added :
    (cs : CompiledStub) (l : List CompiledStub)
    → IsPlaced cs l
    → any_with_id cs l ≡ false
    → (Sort.sort precedes (map (replace_by cs) l ++ cs ∷ [])
        ≡ Sort.insert precedes cs (Sort.sort precedes (others cs l)))
unfolding any_with_id Sort.sort
sort-added cs [] p h = refl
sort-added cs (x ∷ l) p h = elim (Bool-cases (text_eq x.id cs.id)) [
  | inl e ↦ absurd (found e h)
  | inr e ↦
      let below = sort-added cs l (tail-IsPlaced cs x l e p) (gone e h) in
      rw e (
        ap (Sort.insert precedes x) below
        ∙ insert_comm precedes-IsOrder x cs (Sort.sort precedes (others cs l))
            (seq-Apart x cs (λ k. p.apart.0 e (sym k))))
]
  where
    found : text_eq x.id cs.id ≡ true → any_with_id cs (x ∷ l) ≡ false → ⊥
    found e k = ground (arith, e, k)

    gone : text_eq x.id cs.id ≡ false → any_with_id cs (x ∷ l) ≡ false → any_with_id cs l ≡ false
    gone e k = ground (arith, e, k)

sort-spliced :
    (cs : CompiledStub) (l : List CompiledStub)
    → IsPlaced cs l
    → Sort.sort precedes (splice_ordered cs l)
      ≡ Sort.insert precedes cs (Sort.sort precedes (others cs l))
unfolding splice_ordered
sort-spliced cs l p = elim (Bool-cases (any_with_id cs l)) [
  | inl e ↦ rw e (sort-replaced cs l p e)
  | inr e ↦ rw e (sort-added cs l p e)
]

sort-IsPlaced :
    (cs : CompiledStub) (l : List CompiledStub) → IsPlaced cs l → IsPlaced cs (Sort.sort precedes l)
sort-IsPlaced cs l p =
    let p' = same_id cs in
    let same : length (keep p' (Sort.sort precedes l)) ≡ length (keep p' l) =
      sym (length-sort precedes-IsOrder (keep p' (Sort.sort precedes l)))
      ∙ ap length (sort-keep-sort precedes-IsOrder p' l)
      ∙ length-sort precedes-IsOrder (keep p' l) in
    record {
      once = subst (λ n. n ≤ 1) (sym same) p.once;
      apart =
          All-sort precedes-IsOrder (λ s. text_eq s.id cs.id ≡ false → cs.seq ≢ s.seq) l p.apart;
    }

-- A splice into the sorted stubs sorts to the stub and the others.
pub sort-splice :
    (cs : CompiledStub) (l : List CompiledStub)
    → IsPlaced cs l
    → Sort.sort precedes (splice_ordered cs (Sort.sort precedes l))
      ≡ Sort.sort precedes (cs ∷ others cs l)
unfolding Sort.sort
sort-splice cs l p =
    sort-spliced cs (Sort.sort precedes l) (sort-IsPlaced cs l p)
    ∙ ap (Sort.insert precedes cs) (sort-keep-sort precedes-IsOrder (other_id cs.id) l)

-- A stub as it is served: as it is where it names no body file, with the bytes of the file that it
-- names, or marked where that could not be read.
pub record IsResolved (file : Result StoredFile) (cs r : CompiledStub) : Type 0 where
  pub unnamed : cs.response.body_file_name ≡ [] → r ≡ cs
  pub found :
      (f : StoredFile)
      → cs.response.body_file_name ≢ []
      → file ≡ ok f
      → f.name ≡ cs.response.body_file_name
      → r ≡ record cs {
        response = record (cs.response) { body_file_missing = false; body = f.content };
      }
  pub lost :
      (e : StoreError)
      → cs.response.body_file_name ≢ []
      → file ≡ err e
      → r ≡ record cs { response = record (cs.response) { body_file_missing = true } }

-- ===== src/Admin/Requests/Removed.antt =====
-- internal/admin/requests.go: `removeRequests` over the in-memory journal, and a count behind it.
use mockulus.Prelude.{
  ℕ, ◌≤◌, ◌≡◌, inl, inr, refl, sym, ap, subst, ◌∙◌, Bool, true, false, some, List, [], ◌∷◌, Text,
  arith, All, Bool-cases, keep, length, leb,
}
use mockulus.Prelude.Map.{Map, values}
use mockulus.Prelude.Sort
use mockulus.Prelude.Sort.{All-sort}
use mockulus.Stub.{CompiledStub}
use mockulus.Store.{JournalEntry}
use mockulus.Store.Memory.{Store}
use mockulus.Store.Memory.Journal.{newer, query_journal, delete_journal_entry}
use mockulus.Store.Memory.Query.{newer-IsOrder}
use mockulus.Admin.Requests.Defs.{
  JournalStore, Setup, ServeEvent, Asked, Reported, counted, removed, query_of, raws,
  match_requests, delete_each, count_requests, remove_requests,
}
use mockulus.Admin.Requests.Stored.{
  memory, among, delete_ids, All-delete_ids, All-map₂, delete_ids-gone, length-delete_ids,
  query-whole,
}
use mockulus.Admin.Requests.Asking.{match_requests-cases}
use mockulus.Admin.Requests.Picked.{
  ids, selects, picked, picked-nil, IsListed, picked-IsListed, sort-All, keep-All, All-kept,
}

-- Entries that are stored under their identifiers.
abbrev pub IsKeyed : Map JournalEntry → Type 0
IsKeyed m = All (λ p. p.1.id ≡ p.0) m

values-All :
    (P : JournalEntry → Type 0) (m : Map JournalEntry) → All P (values m) → All (λ p. P p.1) m
unfolding values
values-All P [] h = tt
values-All P (p ∷ m) h = (h.0, values-All P m h.1)

All-values :
    (P : JournalEntry → Type 0) (m : Map JournalEntry) → All (λ p. P p.1) m → All P (values m)
unfolding values
All-values P [] h = tt
All-values P (p ∷ m) h = (h.0, All-values P m h.1)

module _ (setup : Setup) (cs : CompiledStub) (since : ℕ) where
  abbrev in_window : JournalEntry → Bool
  in_window e = leb since e.ts

  -- The entries of the window, in the order of a query.
  abbrev window : Map JournalEntry → List JournalEntry
  window m = Sort.sort newer (keep in_window (values m))

  listed :
      (m : Map JournalEntry)
      → All
          (λ e. in_window e ≡ true → IsListed setup cs (ids (picked setup cs (window m))) e)
          (values m)
  listed m = keep-All (IsListed setup cs (ids (picked setup cs (window m)))) in_window (values m) (
      sort-All (IsListed setup cs (ids (picked setup cs (window m)))) (keep in_window (values m))
        (picked-IsListed setup cs (window m)))

  -- Nothing that is left in the window is matched.
  unselected :
      (m : Map JournalEntry)
      → IsKeyed m
      → All
          (λ e. in_window e ≡ true → selects setup cs e ≡ false)
          (values (delete_ids (ids (picked setup cs (window m))) m))
  unselected m keyed =
      let is = ids (picked setup cs (window m)) in
      All-values (λ e. in_window e ≡ true → selects setup cs e ≡ false) (delete_ids is m)
        (All-map₂ (delete_ids is m)
          (λ p good gone seen. not_left p.0 p.1 is good.0 (good.1 seen) gone)
          (All-delete_ids (λ p. (p.1.id ≡ p.0) × (in_window p.1 ≡ true → IsListed setup cs is p.1))
            is m
            (All-map₂ m (λ p k l. (k, l)) keyed
              (values-All (λ e. in_window e ≡ true → IsListed setup cs is e) m (listed m))))
          (delete_ids-gone is m))
    where
      not_left :
          (k : Text) (e : JournalEntry) (is : List Text)
          → e.id ≡ k
          → IsListed setup cs is e
          → among k is ≡ false
          → selects setup cs e ≡ false
      not_left k e is same l gone = elim (Bool-cases (selects setup cs e)) [
        | inr out ↦ out
        | inl in_it ↦
            let there : among k is ≡ true = subst (λ t. among t is ≡ true) same (l in_it) in
            absurd (ground (arith, there, gone))
      ]

  pub picked-gone :
      (m : Map JournalEntry)
      → IsKeyed m
      → picked setup cs (window (delete_ids (ids (picked setup cs (window m))) m)) ≡ []
  picked-gone m keyed =
      let m' = delete_ids (ids (picked setup cs (window m))) m in
      picked-nil setup cs (window m') (
        All-sort newer-IsOrder (λ e. selects setup cs e ≡ false) (keep in_window (values m'))
          (All-kept (λ e. selects setup cs e ≡ false) in_window (values m') (unselected m keyed)))

queried-gone :
    (setup : Setup) (cs : CompiledStub) (since : ℕ) (s : Store)
    → IsKeyed s.journal
    → length s.journal ≤ setup.scan_limit
    → picked setup cs (
        query_journal (query_of setup since) (record s {
          journal =
              delete_ids (ids (picked setup cs (query_journal (query_of setup since) s))) s.journal;
        }))
      ≡ []
unfolding query_journal
queried-gone setup cs since s keyed fits =
    rw (query-whole (λ e. leb since e.ts) setup.scan_limit s.journal fits) (
      ap (picked setup cs) (
        query-whole (λ e. leb since e.ts) setup.scan_limit
          (delete_ids (ids (picked setup cs (window setup cs since s.journal))) s.journal)
          (omega (
            arith,
            length-delete_ids (ids (picked setup cs (window setup cs since s.journal))) s.journal,
            fits,
          )))
      ∙ picked-gone setup cs since s.journal keyed)

delete_each-memory :
    (setup : Setup) (es : List ServeEvent) (next : Store → Reported × Store) (s : Store)
    → delete_each setup memory es next s
      ≡ next (record s { journal = delete_ids (ids es) s.journal })
unfolding delete_each memory delete_ids delete_journal_entry
delete_each-memory setup [] next s = refl
delete_each-memory setup (e ∷ es) next s =
    delete_each-memory setup es next (delete_journal_entry e.id s)

-- On a journal whose entries are stored under their identifiers, and which has no more of them than a
-- query scans: where a removal answers with what it removed, a count of the same criteria behind it
-- answers none.
pub count_requests-remove_requests :
    (setup : Setup) (a : Asked) (s : Store) (rs : List Text)
    → IsKeyed s.journal
    → length s.journal ≤ setup.scan_limit
    → (remove_requests setup a (some memory) s).0 ≡ removed rs
    → (count_requests setup a (some memory) (remove_requests setup a (some memory) s).1).0
      ≡ counted 0
unfolding remove_requests count_requests
count_requests-remove_requests setup a s rs keyed fits h = elim (match_requests-cases setup a) [
  | inl refused ↦ absurd (refused.other rs (sym (ap (λ r. r.0) (refused.same removing s)) ∙ h))
  | inr read ↦
      let cs = read.pattern_of in
      let since = read.since_of in
      let before = picked setup cs (query_journal (query_of setup since) s) in
      let left : Store = record s { journal = delete_ids (ids before) s.journal } in
      let moved =
        read.same removing s
        ∙ delete_each-memory setup before (λ w. (removed (raws before), w)) s in
      ap (λ r. (match_requests setup a counting memory r.1).0) moved
      ∙ (ap (λ r. r.0) (read.same counting left)
          ∙ ap (λ es. counted (length es)) (none_left cs since))
]
  where
    removing : JournalStore Store → List ServeEvent → Store → Reported × Store
    removing j events = delete_each setup j events (λ w. (removed (raws events), w))

    counting : JournalStore Store → List ServeEvent → Store → Reported × Store
    counting j events w = (counted (length events), w)

    none_left :
        (cs : CompiledStub) (since : ℕ)
        → picked setup cs (
            query_journal (query_of setup since) (record s {
              journal =
                  delete_ids
                    (ids (picked setup cs (query_journal (query_of setup since) s)))
                    s.journal;
            }))
          ≡ []
    none_left cs since = queried-gone setup cs since s keyed fits

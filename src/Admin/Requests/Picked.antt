-- ===== src/Admin/Requests/Picked.antt =====
-- internal/admin/requests.go: the events that a pattern matches, among entries of the journal.
use mockulus.Prelude.{
  ◌≡◌, inl, inr, refl, sym, ap, subst, ◌∙◌, Bool, true, false, Option, none, some, List, [], ◌∷◌,
  map, Text, arith, All, Bool-cases, Option-cases, text_eq_self, keep,
}
use mockulus.Prelude.Sort
use mockulus.Prelude.Sort.{All-sort}
use mockulus.Stub.{CompiledStub}
use mockulus.Store.{JournalEntry}
use mockulus.Store.Memory.Journal.{newer}
use mockulus.Admin.Criteria.{matches}
use mockulus.Admin.Requests.Defs.{Setup, ServeEvent, Decoded, events_of}
use mockulus.Admin.Requests.Stored.{among}

abbrev pub ids : List ServeEvent → List Text
ids events = map (λ e. e.id) events

module _ (setup : Setup) (cs : CompiledStub) where
  abbrev pub selected_of : Option Decoded → Bool
  selected_of none = false
  selected_of (some d) = matches cs d.request

  -- The pattern matches an entry.
  abbrev pub selects : JournalEntry → Bool
  selects e = selected_of (setup.decode e.content)

  -- The events of some entries that the pattern matches.
  abbrev pub picked : List JournalEntry → List ServeEvent
  picked l = keep (λ e. matches cs e.request) (events_of setup l)

  picked-skip :
      (e : JournalEntry) (l : List JournalEntry) → selects e ≡ false → picked (e ∷ l) ≡ picked l
  unfolding events_of
  picked-skip e l h = elim (Option-cases (setup.decode e.content)) [
    | inl q ↦ rw q refl
    | inr (d, q) ↦ let no : matches cs d.request ≡ false = rw q at h in rw (q, no) refl
  ]

  picked-take :
      (e : JournalEntry) (l : List JournalEntry)
      → selects e ≡ true
      → ids (picked (e ∷ l)) ≡ e.id ∷ ids (picked l)
  unfolding events_of
  picked-take e l h = elim (Option-cases (setup.decode e.content)) [
    | inl q ↦ absurd (ground (arith, q, h))
    | inr (d, q) ↦ let yes : matches cs d.request ≡ true = rw q at h in rw (q, yes) refl
  ]

  pub picked-nil : (l : List JournalEntry) → All (λ e. selects e ≡ false) l → picked l ≡ []
  unfolding events_of
  picked-nil [] h = refl
  picked-nil (e ∷ l) h = picked-skip e l h.0 ∙ picked-nil l h.1

  -- What is selected among entries is picked, so that its identifier is listed.
  abbrev pub IsListed : List Text → JournalEntry → Type 0
  IsListed is e = selects e ≡ true → among e.id is ≡ true

  All-IsListed-cons :
      (i : Text) (is : List Text) (l : List JournalEntry)
      → All (IsListed is) l
      → All (IsListed (i ∷ is)) l
  All-IsListed-cons i is [] h = tt
  All-IsListed-cons i is (e ∷ l) h = (λ k. ground (arith, h.0 k), All-IsListed-cons i is l h.1)

  pub picked-IsListed : (l : List JournalEntry) → All (IsListed (ids (picked l))) l
  picked-IsListed [] = tt
  picked-IsListed (e ∷ l) = elim (Bool-cases (selects e)) [
    | inl h ↦
        subst (λ is. All (IsListed is) (e ∷ l)) (sym (picked-take e l h))
          (
            (λ k. ground (arith, text_eq_self e.id)),
            All-IsListed-cons e.id (ids (picked l)) l (picked-IsListed l),
          )
    | inr h ↦
        subst (λ is. All (IsListed is) (e ∷ l)) (sym (ap ids (picked-skip e l h)))
          ((λ k. absurd (clash k h)), picked-IsListed l)
  ]
    where
      clash : {b : Bool} → b ≡ true → b ≡ false → ⊥
      clash k h = ground arith

insert-All :
    (P : JournalEntry → Type 0) (e : JournalEntry) (l : List JournalEntry)
    → All P (Sort.insert newer e l)
    → P e × All P l
unfolding Sort.insert
insert-All P e [] h = h
insert-All P e (y ∷ l) h = elim (Bool-cases (newer y e)) [
  | inl q ↦
      let k : P y × All P (Sort.insert newer e l) = rw q at h in
      let r = insert-All P e l k.1 in (r.0, (k.0, r.1))
  | inr q ↦ rw q at h
]

pub sort-All :
    (P : JournalEntry → Type 0) (l : List JournalEntry) → All P (Sort.sort newer l) → All P l
unfolding Sort.sort
sort-All P [] h = tt
sort-All P (e ∷ l) h = let r = insert-All P e (Sort.sort newer l) h in (r.0, sort-All P l r.1)

pub keep-All :
    (P : JournalEntry → Type 0) (w : JournalEntry → Bool) (l : List JournalEntry)
    → All P (keep w l)
    → All (λ e. w e ≡ true → P e) l
keep-All P w [] h = tt
keep-All P w (e ∷ l) h = elim (Bool-cases (w e)) [
  | inl q ↦ let k : P e × All P (keep w l) = rw q at h in ((λ z. k.0), keep-All P w l k.1)
  | inr q ↦
      let k : All P (keep w l) = rw q at h in
      ((λ z. absurd (ground (arith, q, z))), keep-All P w l k)
]

pub All-kept :
    (P : JournalEntry → Type 0) (w : JournalEntry → Bool) (l : List JournalEntry)
    → All (λ e. w e ≡ true → P e) l
    → All P (keep w l)
All-kept P w [] h = tt
All-kept P w (e ∷ l) h = elim (Bool-cases (w e)) [
  | inl q ↦ rw q (h.0 q, All-kept P w l h.1)
  | inr q ↦ rw q (All-kept P w l h.1)
]

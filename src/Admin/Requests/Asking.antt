-- ===== src/Admin/Requests/Asking.antt =====
-- internal/admin/requests.go: what `matchRequests` does over the in-memory journal, whether it reads a
-- pattern and a window or refuses the request.
use mockulus.Prelude.{
  ℕ, ◌≡◌, ◌≢◌, ◌⊎◌, inl, inr, refl, ap, ◌∙◌, Option, none, some, List, [], ◌∷◌, Text, arith,
  Bool-cases, Option-cases, length, ltb,
}
use mockulus.Stub.{CompiledStub}
use mockulus.Store.Memory.{Store}
use mockulus.Store.Memory.Journal.{query_journal}
use mockulus.Admin.Defs.{max_admin_body}
use mockulus.Admin.Requests.Defs.{
  JournalStore, Setup, ServeEvent, Asked, Reported, removed, malformed, too_large, invalid,
  bad_since, compile_criteria, query_of, read_criteria, journal_bounds, load_events, match_requests,
}
use mockulus.Admin.Requests.Stored.{memory}
use mockulus.Admin.Requests.Picked.{picked}

-- What a query goes on with, of a request that is refused for the same reason whatever the world is,
-- and of one that is read.
abbrev pub Continuation : Type 0
Continuation = JournalStore Store → List ServeEvent → Store → Reported × Store

pub record IsRefused (setup : Setup) (a : Asked) : Type 0 where
  pub answer : Reported
  pub other : (rs : List Text) → answer ≢ removed rs
  pub same : (next : Continuation) (s : Store) → match_requests setup a next memory s ≡ (answer, s)

pub record IsRead (setup : Setup) (a : Asked) : Type 0 where
  pub pattern_of : CompiledStub
  pub since_of : ℕ
  pub same :
      (next : Continuation) (s : Store)
      → match_requests setup a next memory s
        ≡ next memory (picked setup pattern_of (query_journal (query_of setup since_of) s)) s

-- The window that a text asks for, if it is one.
abbrev since_asked : Setup → Text → Option ℕ
since_asked setup [] = some 0
since_asked setup (c ∷ s) = setup.parse_time (c ∷ s)

bounds-some :
    (setup : Setup) (t : Text) (n : ℕ) (next : _) (s : Store)
    → since_asked setup t ≡ some n
    → journal_bounds {W = Store} setup t next s ≡ next (query_of setup n) s
unfolding journal_bounds
bounds-some setup [] n next s h = ap (λ k. next (query_of setup k) s) (ground arith)
bounds-some setup (c ∷ t) n next s h = rw (h, journal_bounds) refl

bounds-none :
    (setup : Setup) (t : Text) (next : _) (s : Store)
    → since_asked setup t ≡ none
    → journal_bounds {W = Store} setup t next s ≡ (bad_since, s)
unfolding journal_bounds
bounds-none setup [] next s h = absurd (ground arith)
bounds-none setup (c ∷ t) next s h = rw (h, journal_bounds) refl

-- Reading a pattern refuses, or goes on with it.
abbrev Refuses : Setup → Text → Reported → Type 0
Refuses setup raw r =
    (next : CompiledStub → Store → Reported × Store) (s : Store)
    → read_criteria setup raw next s ≡ (r, s)

abbrev Reads : Setup → Text → CompiledStub → Type 0
Reads setup raw cs =
    (next : CompiledStub → Store → Reported × Store) (s : Store)
    → read_criteria setup raw next s ≡ next cs s

abbrev NotRemoved : Reported → Type 0
NotRemoved r = (rs : List Text) → r ≢ removed rs

read_criteria-cases :
    (setup : Setup) (raw : Text)
    → ((r : Reported) × (NotRemoved r × Refuses setup raw r))
      ⊎ ((cs : CompiledStub) × Reads setup raw cs)
unfolding read_criteria
read_criteria-cases setup [] = inl (malformed, (λ rs h. ground arith, λ next s. refl))
read_criteria-cases setup (c ∷ raw) = elim (Bool-cases (ltb max_admin_body (length (c ∷ raw)))) [
  | inl big ↦ inl (too_large, (λ rs h. ground arith, λ next s. rw (big, read_criteria) refl))
  | inr fits ↦ elim (Option-cases (compile_criteria setup (c ∷ raw))) [
    | inl e ↦ inl (invalid, (λ rs h. ground arith, λ next s. rw (fits, e, read_criteria) refl))
    | inr (cs, e) ↦ inr (cs, λ next s. rw (fits, e, read_criteria) refl)
  ]
]

pub match_requests-cases : (setup : Setup) (a : Asked) → IsRefused setup a ⊎ IsRead setup a
unfolding match_requests load_events memory
match_requests-cases setup a = elim (read_criteria-cases setup a.body) [
  | inl (r, (other, refuses)) ↦
      inl (record { answer = r; other = other; same = λ next s. refuses _ s })
  | inr (cs, reads) ↦ elim (Option-cases (since_asked setup a.since)) [
    | inl e ↦ inl (record {
      answer = bad_since;
      other = λ rs h. ground arith;
      same = λ next s. reads _ s ∙ bounds-none setup a.since _ s e;
    })
    | inr (n, e) ↦ inr (record {
      pattern_of = cs;
      since_of = n;
      same = λ next s. reads _ s ∙ bounds-some setup a.since n _ s e;
    })
  ]
]

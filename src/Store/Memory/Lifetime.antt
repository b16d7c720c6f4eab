-- ===== src/Store/Memory/Lifetime.antt =====
-- internal/store/memory/memory.go: which stubs are there, and until when.
use mockulus.Prelude.{
  ap, sym, ◌∙◌, ℕ, ◌≡◌, Bool, true, not, Option, none, some, List, [], ◌∷◌, Text, text_eq,
  if◌then◌else◌, ◌==◌, arith, Bool-cases, inl, inr,
}
use mockulus.Prelude.Map.{
  Map, lookup, insert, delete, lookup-insert, lookup-delete, lookup-prune, lookup-update_all,
  keep_if,
}
use mockulus.Store.Defs.{StoreError, Result, ok, err, StoredStub}
use mockulus.Store.Memory.Defs.{
  Entry, Store, new, is_expired, expire_locked, load_all, entry_of, put_stub, found_live, get_stub,
  delete_stub, delete_all_stubs, delete_ephemeral_stubs, PersistentMapping, mark_persistent,
  mark_all_persistent,
}

-- No persistent stub expires, and none does where expiry is off.
abbrev IsTimed : ℕ → Entry → Type 0
IsTimed ttl e = (e.stub.persistent ≡ true → e.expires_at ≡ none) × (ttl ≡ 0 → e.expires_at ≡ none)

abbrev EntryIsTimed : ℕ → Option Entry → Type 0
EntryIsTimed ttl none = Unit
EntryIsTimed ttl (some e) = IsTimed ttl e

pub record IsWellFormed (s : Store) : Type 0 where
  pub timed : (id : Text) → EntryIsTimed s.ephemeral_ttl (lookup id s.stubs)

-- The methods that write stubs or drop them, with the clock where they read it.
pub data Write : Type 0 where
  put : ℕ → StoredStub → Write
  load : ℕ → Write
  delete_one : Text → Write
  delete_all delete_ephemeral save : Write

unfoldable pub apply : PersistentMapping → Write → Store → Store
unfolding put_stub load_all delete_stub delete_all_stubs delete_ephemeral_stubs mark_all_persistent
apply pm (put now stub) s = (put_stub now stub s).1
apply pm (load now) s = (load_all now s).1
apply pm (delete_one id) s = delete_stub id s
apply pm delete_all s = delete_all_stubs s
apply pm delete_ephemeral s = delete_ephemeral_stubs s
apply pm save s = mark_all_persistent pm s

entry_of-IsTimed : (ttl now : ℕ) (stub : StoredStub) → IsTimed ttl (entry_of ttl now stub)
entry_of-IsTimed ttl now stub = ground arith

keep_if-timed :
    (ttl : ℕ) (p : Entry → Bool) (o : Option Entry)
    → EntryIsTimed ttl o
    → EntryIsTimed ttl (keep_if p o)
keep_if-timed ttl p none h = tt
keep_if-timed ttl p (some e) h = elim (Bool-cases (p e)) [ inl q ↦ rw q h | inr q ↦ rw q tt ]

mark-IsTimed :
    (ttl : ℕ) (pm : PersistentMapping) (e : Entry)
    → IsTimed ttl e
    → IsTimed ttl (mark_persistent pm e)
unfolding mark_persistent
mark-IsTimed ttl pm e h = ground (arith, h.0, h.1)

insert-timed :
    (ttl now : ℕ) (stub : StoredStub) (m : Map Entry)
    → ((id : Text) → EntryIsTimed ttl (lookup id m))
    → (id : Text) → EntryIsTimed ttl (lookup id (insert stub.id (entry_of ttl now stub) m))
insert-timed ttl now stub m h id = rw lookup-insert (elim (Bool-cases (text_eq stub.id id)) [
  | inl e ↦ rw e (entry_of-IsTimed ttl now stub)
  | inr e ↦ rw e (h id)
])

delete-timed :
    (ttl : ℕ) (k : Text) (m : Map Entry)
    → ((id : Text) → EntryIsTimed ttl (lookup id m))
    → (id : Text) → EntryIsTimed ttl (lookup id (delete k m))
delete-timed ttl k m h id =
    rw lookup-delete (elim (Bool-cases (text_eq k id)) [ inl e ↦ rw e tt | inr e ↦ rw e (h id) ])

mark_option-timed :
    (ttl : ℕ) (pm : PersistentMapping) (o : Option Entry)
    → EntryIsTimed ttl o
    → EntryIsTimed ttl (elim o [ none ↦ none | some v ↦ some (mark_persistent pm v) ])
mark_option-timed ttl pm none h = tt
mark_option-timed ttl pm (some e) h = mark-IsTimed ttl pm e h

expire-IsWellFormed : (now : ℕ) (s : Store) → IsWellFormed s → IsWellFormed (expire_locked now s)
unfolding expire_locked
expire-IsWellFormed now s h = elim (Bool-cases (s.ephemeral_ttl == 0)) [
  | inl e ↦ rw e h
  | inr e ↦ rw e (record {
    timed =
        λ id. rw lookup-prune (keep_if-timed s.ephemeral_ttl _ (lookup id s.stubs) (h.timed id));
  })
]

pub apply-IsWellFormed :
    (pm : PersistentMapping) (op : Write) (s : Store)
    → IsWellFormed s
    → IsWellFormed (apply pm op s)
unfolding apply
apply-IsWellFormed pm (put now stub) s h = elim (Bool-cases (text_eq stub.id [])) [
  | inl e ↦ rw (e, apply) h
  | inr e ↦
      rw (e, apply) (record { timed = insert-timed s.ephemeral_ttl now stub s.stubs (h.timed) })
]
apply-IsWellFormed pm (load now) s h = expire-IsWellFormed now s h
apply-IsWellFormed pm (delete_one id) s h = record {
  timed = delete-timed s.ephemeral_ttl id s.stubs (h.timed);
}
apply-IsWellFormed pm delete_all s h = unfold lookup in record { timed = λ id. tt }
apply-IsWellFormed pm delete_ephemeral s h = record {
  timed = λ id. rw lookup-prune (keep_if-timed s.ephemeral_ttl _ (lookup id s.stubs) (h.timed id));
}
apply-IsWellFormed pm save s h = record {
  timed = λ id.
      rw lookup-update_all (mark_option-timed s.ephemeral_ttl pm (lookup id s.stubs) (h.timed id));
}

unfoldable pub run : PersistentMapping → List Write → Store → Store
run pm [] s = s
run pm (op ∷ ops) s = run pm ops (apply pm op s)

run_keeps :
    (pm : PersistentMapping) (ops : List Write) (s : Store)
    → IsWellFormed s
    → IsWellFormed (run pm ops s)
unfolding run
run_keeps pm [] s h = h
run_keeps pm (op ∷ ops) s h = run_keeps pm ops (apply pm op s) (apply-IsWellFormed pm op s h)

-- In every store that a sequence of stub writes, deletions, resets, saves and loads makes from a
-- new one, a persistent stub has no expiry, and no stub has one where the lifetime is zero.
pub run-IsWellFormed :
    (pm : PersistentMapping) (ops : List Write) (ttl : ℕ) → IsWellFormed (run pm ops (new ttl))
run-IsWellFormed pm ops ttl =
    run_keeps pm ops (new ttl) (unfold lookup in record { timed = λ id. tt })

abbrev pub found_result : Option Entry → Result StoredStub
found_result none = err StoreError.not_found
found_result (some e) = ok e.stub

keep-found_live :
    (ttl now : ℕ) (o : Option Entry)
    → EntryIsTimed ttl o
    → found_result (if ttl == 0 then o else keep_if (λ e. not (is_expired now e)) o)
      ≡ found_live now o
keep-found_live ttl now none h = ground arith
keep-found_live ttl now (some e) h = ground (arith, h.1)

-- A load drops exactly the stubs that a read by identifier no longer finds: after it, a stub is
-- stored under an identifier just where a read at that time finds it, and it is the one found.
pub load_all-get_stub :
    (now : ℕ) (id : Text) (s : Store)
    → IsWellFormed s
    → found_result (lookup id (load_all now s).1.stubs) ≡ get_stub now id s
unfolding load_all get_stub expire_locked
load_all-get_stub now id s h = elim (Bool-cases (s.ephemeral_ttl == 0)) [
  | inl e ↦ rw e (
      (ap
          (λ b. found_result (
            if b
            then lookup id s.stubs
            else keep_if (λ e'. not (is_expired now e')) (lookup id s.stubs)))
          (sym e)
        ∙ keep-found_live s.ephemeral_ttl now (lookup id s.stubs) (h.timed id)))
  | inr e ↦
      rw (e, lookup-prune)
        (ap
            (λ b. found_result (
              if b
              then lookup id s.stubs
              else keep_if (λ e'. not (is_expired now e')) (lookup id s.stubs)))
            (sym e)
          ∙ keep-found_live s.ephemeral_ttl now (lookup id s.stubs) (h.timed id))
]

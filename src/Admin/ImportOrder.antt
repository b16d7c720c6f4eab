-- ===== src/Admin/ImportOrder.antt =====
-- internal/admin/mappings_write.go: the sequences that an import gives on the in-memory driver.
use mockulus.Prelude.{
  ℕ, ◌+◌, ◌^◌, ◌≡◌, ◌<◌, refl, sym, ap, ◌∙◌, subst, Bool, true, false, ◌||◌, Option, none, some,
  List, [], ◌∷◌, Text, if◌then◌else◌, length, text_eq, text_eq_iff, text_eq_self, arith,
}
use mockulus.Prelude.Map.{Map, lookup, insert, lookup-insert}
use mockulus.Store.{StoredStub}
use mockulus.Store.Memory.{Store, PersistentMapping, Entry, entry_of, next_seq, incr}
use mockulus.Match.Builder.{Compilers, mem}
use mockulus.Admin.Defs.{Documents}
use mockulus.Admin.Mappings.{stored_stub}
use mockulus.Admin.Import.{
  Pending, Before, Applied, applied, keep_ids, existing_of, written, put_item, put_new, put_over,
  apply_item, apply_items,
}
use mockulus.Admin.Memory.{memory}
use mockulus.Admin.Written.{with_entry, put-taken}

-- The sequence of the stub that the store has under an id.
abbrev seq_in : Option Entry → Option ℕ
seq_in none = none
seq_in (some e) = some e.stub.seq

abbrev pub seq_of : Text → Store → Option ℕ
seq_of id s = seq_in (lookup id s.stubs)

-- The items of a batch stand in the store, the last with the first sequence after a base.
abbrev pub AreRanked : Store → ℕ → List Pending → Type 0
AreRanked s base [] = Unit
AreRanked s base (item ∷ items) =
    (seq_of item.id s ≡ some (base + length items + 1)) × AreRanked s base items

-- Named items whose ids are new to the store and differ.
abbrev pub AreNew : Before → List Pending → Type 0
AreNew before [] = Unit
AreNew before (item ∷ items) =
    (text_eq item.id [] ≡ false)
    × (existing_of none (lookup item.id before) ≡ none)
    × (mem item.id (keep_ids items) ≡ false)
    × AreNew before items

-- A batch after its loop.
pub record IsBatch (base : ℕ) (items : List Pending) (r : Applied × Store) : Type 0 where
  pub stubs : Map StoredStub
  pub complete : r.0 ≡ applied stubs
  pub counter : r.1.seq ≡ base + length items
  pub ranked : AreRanked r.1 base items

module _ (c : Compilers) (docs : Documents) (pm : PersistentMapping) (now : ℕ) where
  abbrev counted : Store → Store
  counted s = record s { seq = incr s.seq }

  abbrev stored_of : Pending → ℕ → StoredStub
  stored_of item seq = stored_stub item.id seq now item.compiled item.doc

  -- One new item.
  new-item :
      (ignore : Bool) (before : Before) (item : Pending) (batch : Map StoredStub) (s : Store)
      → text_eq item.id [] ≡ false
      → existing_of none (lookup item.id before) ≡ none
      → lookup item.id batch ≡ none
      → apply_item c docs (memory pm now) ignore now before item (applied batch, s) ≡ (
        applied (insert item.id (stored_of item (incr s.seq)) batch),
        with_entry now (stored_of item (incr s.seq)) (counted s),
      )
  unfolding apply_item put_over put_new put_item written memory next_seq
  new-item ignore before item batch s named fresh unseen =
      ap
        (λ o.
          put_over c docs (memory pm now) ignore now item batch
            (existing_of o (lookup item.id before)) s)
        unseen
      ∙ ap (λ o. put_over c docs (memory pm now) ignore now item batch o s) fresh
      ∙ ap (λ r. written c docs (memory pm now) batch (stored_of item (incr s.seq)) r)
          (put-taken now (stored_of item (incr s.seq)) (counted s) named)

  -- The stubs written are those of the items.
  abbrev OnlyOf : List Pending → Map StoredStub → Type 0
  OnlyOf items batch = (id : Text) → mem id (keep_ids items) ≡ false → lookup id batch ≡ none

  differs : (a b : Text) → text_eq a b ≡ false → text_eq b a ≡ false
  differs a b h = ground (arith, h, text_eq_iff a b, text_eq_iff b a)

  seq_of-put :
      (stored : StoredStub) (s : Store) (j : Text)
      → seq_of j (with_entry now stored s)
        ≡ (if text_eq stored.id j then some stored.seq else seq_of j s)
  seq_of-put stored s j =
      ap seq_in (lookup-insert stored.id j (entry_of s.ephemeral_ttl now stored) s.stubs)
      ∙ push (text_eq stored.id j)
    where
      push :
          (b : Bool)
          → seq_in (if b then some (entry_of s.ephemeral_ttl now stored) else lookup j s.stubs)
            ≡ (if b then some stored.seq else seq_in (lookup j s.stubs))
      push true = refl
      push false = refl

  or_false : (a b : Bool) → (a || b) ≡ false → (a ≡ false) × (b ≡ false)
  or_false a b h = ground (arith, h)

  ranked-put :
      (stored : StoredStub) (s : Store) (base : ℕ) (items : List Pending)
      → mem stored.id (keep_ids items) ≡ false
      → AreRanked s base items
      → AreRanked (with_entry now stored s) base items
  unfolding mem
  ranked-put stored s base [] out ranked = tt
  ranked-put stored s base (item ∷ items) out ranked =
      let (apart, rest) =
        or_false (text_eq item.id stored.id) (mem stored.id (keep_ids items)) out in
      (
        seq_of-put stored s item.id
            ∙ ap (λ b. if b then some stored.seq else seq_of item.id s)
                (differs item.id stored.id apart)
            ∙ ranked.0,
        ranked-put stored s base items rest ranked.1,
      )

  record Continues (base : ℕ) (items : List Pending) (r : Applied × Store) : Type 0 where
    batch : IsBatch base items r
    only : OnlyOf items batch.stubs

  counts_up : (base n : ℕ) → base + (n + 1) < 2 ^ 64 → incr (base + n) ≡ base + n + 1
  counts_up base n room = omega (arith, room)

  -- The state of the run after one more item.
  run-item :
      (ignore : Bool) (before : Before) (item : Pending) (items : List Pending) (base : ℕ)
      (a : Applied) (s : Store)
      → AreNew before (item ∷ items)
      → base + (length items + 1) < 2 ^ 64
      → Continues base items (a, s)
      → Continues base
          (item ∷ items)
          (apply_item c docs (memory pm now) ignore now before item (a, s))
  unfolding mem
  run-item ignore before item items base a s new room run =
      let stubs = run.batch.stubs in
      let stored = stored_of item (incr s.seq) in
      let place : incr s.seq ≡ base + length items + 1 =
        ap incr run.batch.counter ∙ counts_up base (length items) room in
      let step =
        ap (λ x. apply_item c docs (memory pm now) ignore now before item (x, s)) run.batch.complete
        ∙ new-item ignore before item stubs s new.0 new.1 (run.only item.id new.2) in
      subst (Continues base (item ∷ items)) (sym step) (record {
        batch = record {
          stubs = insert item.id stored stubs;
          complete = refl;
          counter = place ∙ omega arith;
          ranked = (
            seq_of-put stored (counted s) item.id
                ∙ ap (λ b. if b then some stored.seq else seq_of item.id s) (text_eq_self item.id)
                ∙ ap some place,
            ranked-put stored (counted s) base items new.2 run.batch.ranked,
          );
        };
        only = λ id out.
            let (apart, rest) = or_false (text_eq item.id id) (mem id (keep_ids items)) out in
            lookup-insert item.id id stored stubs
            ∙ ap (λ b. if b then some stored else lookup id stubs) apart
            ∙ run.only id rest;
      })

  run-Continues :
      (ignore : Bool) (before : Before) (items : List Pending) (s : Store)
      → AreNew before items
      → s.seq + length items < 2 ^ 64
      → Continues s.seq items (apply_items c docs (memory pm now) ignore now before items s)
  unfolding apply_items lookup
  run-Continues ignore before [] s new room = record {
    batch = record { stubs = []; complete = refl; counter = omega arith; ranked = tt };
    only = λ id out. refl;
  }
  run-Continues ignore before (item ∷ items) s new room =
      let rest = apply_items c docs (memory pm now) ignore now before items s in
      run-item ignore before item items s.seq rest.0 rest.1 new (omega (arith, room))
        (run-Continues ignore before items s new.3 (omega (arith, room)))

  -- Where the items of an import are new to the in-memory driver and have names that differ, and its
  -- sequences do not run out, all are written under either policy, and each has a greater sequence than
  -- those behind it in the payload: the last has the next of the driver, and so on to the first.
  pub apply_items-IsBatch :
      (ignore : Bool) (before : Before) (items : List Pending) (s : Store)
      → AreNew before items
      → s.seq + length items < 2 ^ 64
      → IsBatch s.seq items (apply_items c docs (memory pm now) ignore now before items s)
  apply_items-IsBatch ignore before items s new room =
      (run-Continues ignore before items s new room).batch

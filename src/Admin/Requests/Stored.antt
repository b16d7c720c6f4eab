-- ===== src/Admin/Requests/Stored.antt =====
-- internal/store/memory/memory.go as the journal of the handlers, and what its deletions leave.
use mockulus.Prelude.{
  ℕ, ◌≤◌, ◌≡◌, inl, inr, refl, Bool, false, ◌||◌, List, [], ◌∷◌, Text, arith, All, Bool-cases,
  text_eq, keep, length,
}
use mockulus.Prelude.Map.{Map, delete, values}
use mockulus.Prelude.Sort
use mockulus.Store.{JournalEntry, ok}
use mockulus.Store.Memory.{Store}
use mockulus.Store.Memory.Journal.{
  query_journal, limited, newer, get_journal_entry, delete_journal_entry, clear_journal,
}
use mockulus.Store.Memory.Query.{newer-IsOrder}
use mockulus.Admin.Requests.Defs.{JournalStore}

unfoldable pub memory : JournalStore Store
unfolding query_journal get_journal_entry delete_journal_entry clear_journal
memory = record {
  query_journal = λ q s. (ok (query_journal q s), s);
  get_journal_entry = λ id s. (get_journal_entry id s, s);
  delete_journal_entry = λ id s. (ok tt, delete_journal_entry id s);
  clear_journal = λ s. (ok tt, clear_journal s);
}

abbrev pub among : Text → List Text → Bool
among id [] = false
among id (i ∷ is) = text_eq id i || among id is

unfoldable pub delete_ids : List Text → Map JournalEntry → Map JournalEntry
delete_ids [] m = m
delete_ids (i ∷ is) m = delete_ids is (delete i m)

All-delete :
    (P : Text × JournalEntry → Type 0) (k : Text) (m : Map JournalEntry)
    → All P m
    → All P (delete k m)
unfolding delete
All-delete P k [] h = tt
All-delete P k ((j, e) ∷ m) h = elim (Bool-cases (text_eq j k)) [
  | inl q ↦ rw q (All-delete P k m h.1)
  | inr q ↦ rw q (h.0, All-delete P k m h.1)
]

pub All-delete_ids :
    (P : Text × JournalEntry → Type 0) (is : List Text) (m : Map JournalEntry)
    → All P m
    → All P (delete_ids is m)
unfolding delete_ids
All-delete_ids P [] m h = h
All-delete_ids P (i ∷ is) m h = All-delete_ids P is (delete i m) (All-delete P i m h)

delete-gone : (k : Text) (m : Map JournalEntry) → All (λ p. text_eq p.0 k ≡ false) (delete k m)
unfolding delete
delete-gone k [] = tt
delete-gone k ((j, e) ∷ m) = elim (Bool-cases (text_eq j k)) [
  | inl q ↦ rw q (delete-gone k m)
  | inr q ↦ rw q (q, delete-gone k m)
]

pub All-map₂ {ℓ} :
    {A : Type ℓ} {P Q R : A → Type 0} (l : List A)
    → ((x : A) → P x → Q x → R x)
    → All P l
    → All Q l
    → All R l
All-map₂ [] f h k = tt
All-map₂ (x ∷ l) f h k = (f x h.0 k.0, All-map₂ l f h.1 k.1)

pub delete_ids-gone :
    (is : List Text) (m : Map JournalEntry) → All (λ p. among p.0 is ≡ false) (delete_ids is m)
unfolding delete_ids
delete_ids-gone [] m = everywhere m
  where
    everywhere : (m : Map JournalEntry) → All (λ p. false ≡ false) m
    everywhere [] = tt
    everywhere (p ∷ m) = (refl, everywhere m)
delete_ids-gone (i ∷ is) m =
    All-map₂ (delete_ids is (delete i m)) (λ p h k. ground (arith, h, k))
      (All-delete_ids (λ p. text_eq p.0 i ≡ false) is (delete i m) (delete-gone i m))
      (delete_ids-gone is (delete i m))

length-delete : (k : Text) (m : Map JournalEntry) → length (delete k m) ≤ length m
unfolding delete
length-delete k [] = omega arith
length-delete k ((j, e) ∷ m) = ground (arith, length-delete k m)

pub length-delete_ids :
    (is : List Text) (m : Map JournalEntry) → length (delete_ids is m) ≤ length m
unfolding delete_ids
length-delete_ids [] m = omega arith
length-delete_ids (i ∷ is) m = omega (arith, length-delete i m, length-delete_ids is (delete i m))

length-kept :
    (w : JournalEntry → Bool) (m : Map JournalEntry) → length (keep w (values m)) ≤ length m
unfolding values
length-kept w [] = omega arith
length-kept w ((k, e) ∷ m) = ground (arith, length-kept w m)

limited-whole : (limit : ℕ) (l : List JournalEntry) → length l ≤ limit → limited limit l ≡ l
unfolding limited
limited-whole limit l h = ground arith

-- A query sees every entry of its window where the limit is no less than the entries there are.
pub query-whole :
    (w : JournalEntry → Bool) (limit : ℕ) (m : Map JournalEntry)
    → length m ≤ limit
    → limited limit (Sort.sort newer (keep w (values m))) ≡ Sort.sort newer (keep w (values m))
query-whole w limit m h =
    limited-whole limit (Sort.sort newer (keep w (values m)))
      (omega (arith, Sort.length-sort newer-IsOrder (keep w (values m)), length-kept w m))

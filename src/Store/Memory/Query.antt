-- ===== src/Store/Memory/Query.antt =====
-- internal/store/memory/memory.go: what a query of the journal returns.
use mockulus.Prelude.{
  ℕ, zero, suc, ◌≤◌, ◌<◌, ◌≡◌, refl, Bool, true, false, ◌&&◌, List, [], ◌∷◌, Text, text_lt, ltb,
  leb, length, take, keep, All, arith, Bool-cases, inl, inr,
}
use mockulus.Prelude.Map.{values}
use mockulus.Prelude.Sort
use mockulus.Prelude.Sort.{IsOrder, IsSorted, sort-IsSorted, All-sort}
use mockulus.Store.Defs.{JournalEntry, JournalQuery}
use mockulus.Store.Memory.Defs.{Store}
use mockulus.Store.Memory.Journal.{newer, limited, query_journal}

text_lt_asym : (a b : Text) → text_lt a b ≡ true → text_lt b a ≡ false
unfolding text_lt
text_lt_asym [] [] h = refl
text_lt_asym [] (y ∷ b) h = refl
text_lt_asym (x ∷ a) [] h = ground arith
text_lt_asym (x ∷ a) (y ∷ b) h = ground (arith, text_lt_asym a b)

text_lt_trans : (a b c : Text) → text_lt a b ≡ true → text_lt b c ≡ true → text_lt a c ≡ true
unfolding text_lt
text_lt_trans [] [] c h k = ground arith
text_lt_trans (x ∷ a) [] c h k = ground arith
text_lt_trans a (y ∷ b) [] h k = ground arith
text_lt_trans [] (y ∷ b) (z ∷ c) h k = refl
text_lt_trans (x ∷ a) (y ∷ b) (z ∷ c) h k = ground (arith, text_lt_trans a b c)

text_lt_weak : (a b c : Text) → text_lt b a ≡ false → text_lt c b ≡ false → text_lt c a ≡ false
unfolding text_lt
text_lt_weak [] [] c h k = k
text_lt_weak [] (y ∷ b) [] h k = refl
text_lt_weak [] (y ∷ b) (z ∷ c) h k = refl
text_lt_weak (x ∷ a) [] c h k = ground arith
text_lt_weak (x ∷ a) (y ∷ b) [] h k = ground arith
text_lt_weak (x ∷ a) (y ∷ b) (z ∷ c) h k = ground (arith, text_lt_weak a b c)

pub newer-IsOrder : IsOrder newer
newer-IsOrder = record {
  asym = λ x y h. ground (arith, text_lt_asym y.id x.id);
  trans = λ x y z h k. ground (arith, text_lt_trans z.id y.id x.id);
  weak = λ x y z h k. ground (arith, text_lt_weak z.id y.id x.id);
}

All-take : (P : JournalEntry → Type 0) (n : ℕ) (l : List JournalEntry) → All P l → All P (take n l)
All-take P zero l h = tt
All-take P (suc n) [] h = tt
All-take P (suc n) (x ∷ l) h = (h.0, All-take P n l h.1)

take-IsSorted : (n : ℕ) (l : List JournalEntry) → IsSorted newer l → IsSorted newer (take n l)
take-IsSorted zero l h = tt
take-IsSorted (suc n) [] h = tt
take-IsSorted (suc n) (x ∷ l) h = (All-take _ n l h.0, take-IsSorted n l h.1)

length-take : (n : ℕ) (l : List JournalEntry) → length (take n l) ≤ n
length-take zero l = omega arith
length-take (suc n) [] = omega arith
length-take (suc n) (x ∷ l) = omega (arith, length-take n l)

All-keep : (p : JournalEntry → Bool) (l : List JournalEntry) → All (λ e. p e ≡ true) (keep p l)
All-keep p [] = tt
All-keep p (x ∷ l) = elim (Bool-cases (p x)) [
  | inl e ↦ rw e (e, All-keep p l)
  | inr e ↦ rw e (All-keep p l)
]

abbrev IsPage : JournalQuery → List JournalEntry → Type 0
IsPage q l = IsSorted newer l × All (λ e. leb q.since e.ts ≡ true) l

limited-IsPage :
    (q : JournalQuery) (limit : ℕ) (l : List JournalEntry)
    → IsPage q l
    → 0 < limit
    → IsPage q (limited limit l) × length (limited limit l) ≤ limit
unfolding limited
limited-IsPage q limit l h on = elim (Bool-cases (ltb 0 limit && ltb limit (length l))) [
  | inl e ↦ rw e ((take-IsSorted limit l h.0, All-take _ limit l h.1), length-take limit l)
  | inr e ↦ rw e (h, ground (arith, e, on))
]

-- A query with a limit returns at most so many entries, none of them older than asked for, the
-- newest first and, of one time, by descending identifier.
query_journal-IsSorted :
    (q : JournalQuery) (s : Store)
    → 0 < q.limit
    → (IsSorted newer (query_journal q s) × All (λ e. leb q.since e.ts ≡ true) (query_journal q s))
      × length (query_journal q s) ≤ q.limit
unfolding query_journal
query_journal-IsSorted q s on =
    let kept = keep (λ e. leb q.since e.ts) (values s.journal) in
    limited-IsPage q q.limit (Sort.sort newer kept)
      (
        sort-IsSorted newer-IsOrder kept,
        All-sort newer-IsOrder (λ e. leb q.since e.ts ≡ true) kept
            (All-keep (λ e. leb q.since e.ts) (values s.journal)),
      )
      on

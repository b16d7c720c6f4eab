-- ===== src/Store/Memory/Journal.antt =====
-- internal/store/memory/memory.go: the journal's entries.
use mockulus.Prelude.{
  ℕ, Bool, ◌&&◌, none, some, List, [], ◌∷◌, Text, text_lt, if◌then◌else◌, ◌==◌, ltb, leb, keep,
  take, length,
}
use mockulus.Prelude.Map.{Map, lookup, insert, delete, values}
use mockulus.Prelude.Sort
use mockulus.Store.Defs.{StoreError, Result, ok, err, JournalEntry, JournalQuery}
use mockulus.Store.Memory.Defs.{Store}

unfoldable pub put_entries : List JournalEntry → Map JournalEntry → Map JournalEntry
put_entries [] m = m
put_entries (e ∷ entries) m = put_entries entries (insert e.id e m)

unfoldable pub append_journal : List JournalEntry → Store → Store
unfolding put_entries
append_journal entries s = record s { journal = put_entries entries s.journal }

-- Newest first, by identifier where the times agree.
abbrev pub newer : JournalEntry → JournalEntry → Bool
newer a b = if a.ts == b.ts then text_lt b.id a.id else ltb b.ts a.ts

unfoldable pub limited : ℕ → List JournalEntry → List JournalEntry
limited limit out = if ltb 0 limit && ltb limit (length out) then take limit out else out

unfoldable pub query_journal : JournalQuery → Store → List JournalEntry
unfolding limited
query_journal q s =
    limited q.limit (Sort.sort newer (keep (λ e. leb q.since e.ts) (values s.journal)))

unfoldable pub get_journal_entry : Text → Store → Result JournalEntry
get_journal_entry id s = elim (lookup id s.journal) [
  | none ↦ err StoreError.not_found
  | some e ↦ ok e
]

unfoldable pub delete_journal_entry : Text → Store → Store
delete_journal_entry id s = record s { journal = delete id s.journal }

unfoldable pub clear_journal : Store → Store
clear_journal s = record s { journal = [] }

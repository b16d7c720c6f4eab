-- ===== src/Journal/Conservation.antt =====
-- internal/journal/journal.go: no entry is lost without being counted.
use mockulus.Prelude.{
  ℕ, zero, suc, ◌+◌, ◌≡◌, refl, ap, Bool, true, false, ◌&&◌, Option, none, some, List, [], ◌∷◌,
  ◌++◌, ltb, leb, length, length-append, get_elem?, arith, Bool-cases, inl, inr,
}
use mockulus.Store.{JournalEntry}
use mockulus.Journal.Defs.{
  Config, Flusher, filling, written, Writer, idle, start, size_of, remove_at, set_at, reserve, send,
  send_entry, receive, receive_by, flush, flush_by, release, release_by, Event, reserves, sends,
  receives, flushes, releases, step, run,
}

-- The entries that flushers hold and have not given to the store.
abbrev waiting : Flusher → ℕ
waiting (filling batch) = length batch
waiting (written batch) = 0

abbrev all_waiting : List Flusher → ℕ
all_waiting [] = 0
all_waiting (f ∷ fs) = waiting f + all_waiting fs

-- The entries that a writer has somewhere or has counted as dropped.
abbrev pub known : Writer → ℕ
known w = length w.reserved + length w.queue + all_waiting w.flushers + length w.stored + w.dropped

-- The entries that requests have handed in.
abbrev pub entered : List Event → ℕ
entered [] = 0
entered (reserves e ∷ evs) = entered evs + 1
entered (sends i ∷ evs) = entered evs
entered (receives k ∷ evs) = entered evs
entered (releases k ∷ evs) = entered evs
entered (flushes k ok ∷ evs) = entered evs

remove-length :
    (i : ℕ) (l : List JournalEntry) (e : JournalEntry)
    → get_elem? l i ≡ some e
    → length l ≡ length (remove_at i l) + 1
remove-length i [] e h = ground arith
remove-length zero (x ∷ l) e h = omega arith
remove-length (suc i) (x ∷ l) e h = omega (arith, remove-length i l e h)

set-waiting :
    (k : ℕ) (fs : List Flusher) (f g : Flusher)
    → get_elem? fs k ≡ some f
    → all_waiting (set_at k g fs) + waiting f ≡ all_waiting fs + waiting g
set-waiting k [] f g h = ground arith
set-waiting zero (x ∷ fs) f g h =
    let eq : x ≡ f = cc in let same : waiting x ≡ waiting f = ap waiting eq in omega (arith, same)
set-waiting (suc k) (x ∷ fs) f g h = omega (arith, set-waiting k fs f g h)

module _ (cfg : Config) where
  reserve-known : (e : JournalEntry) (w : Writer) → known (reserve cfg e w) ≡ known w + 1
  unfolding reserve
  reserve-known e w =
      elim (Bool-cases (ltb 0 cfg.buffer_bytes && ltb cfg.buffer_bytes (w.bytes + size_of e))) [
        | inl q ↦ rw q (omega arith)
        | inr q ↦ rw q (omega arith)
      ]

  send-known :
      (i : ℕ) (o : Option JournalEntry) (w : Writer)
      → get_elem? w.reserved i ≡ o
      → known (send_entry cfg i o w) ≡ known w
  unfolding send_entry
  send-known i none w at = refl
  send-known i (some e) w at =
      let removed = remove-length i w.reserved e at in
      elim (Bool-cases (ltb (length w.queue) cfg.buffer_entries)) [
        | inl q ↦ rw q (omega (arith, removed, length-append w.queue (e ∷ [])))
        | inr q ↦ rw q (omega (arith, removed))
      ]

  receive-known :
      (k : ℕ) (o : Option Flusher) (queue : List JournalEntry) (w : Writer)
      → get_elem? w.flushers k ≡ o
      → w.queue ≡ queue
      → known (receive_by cfg k o queue w) ≡ known w
  unfolding receive_by
  receive-known k none queue w at q = refl
  receive-known k (some (written b)) queue w at q = refl
  receive-known k (some (filling b)) [] w at q = refl
  receive-known k (some (filling b)) (e ∷ queue) w at q =
      let many = ap length q in
      let same = set-waiting k w.flushers (filling b) (filling (b ++ e ∷ [])) at in
      let snoc = length-append b (e ∷ []) in
      elim (Bool-cases (ltb 0 (length b) && leb cfg.batch_size (length b))) [
        | inl r ↦ rw r refl
        | inr r ↦ rw r (omega (arith, many, same, snoc))
      ]

  flush-known :
      (k : ℕ) (ok : Bool) (o : Option Flusher) (w : Writer)
      → get_elem? w.flushers k ≡ o
      → known (flush_by k ok o w) ≡ known w
  unfolding flush_by
  flush-known k ok none w at = refl
  flush-known k ok (some (written b)) w at = refl
  flush-known k ok (some (filling [])) w at = refl
  flush-known k true (some (filling (e ∷ b))) w at = omega (
    arith,
    set-waiting k w.flushers (filling (e ∷ b)) (written (e ∷ b)) at,
    length-append w.stored (e ∷ b),
  )
  flush-known k false (some (filling (e ∷ b))) w at =
      omega (arith, set-waiting k w.flushers (filling (e ∷ b)) (written (e ∷ b)) at)

  release-known :
      (k : ℕ) (o : Option Flusher) (w : Writer)
      → get_elem? w.flushers k ≡ o
      → known (release_by k o w) ≡ known w
  unfolding release_by
  release-known k none w at = refl
  release-known k (some (filling b)) w at = refl
  release-known k (some (written b)) w at =
      omega (arith, set-waiting k w.flushers (written b) (filling []) at)

  run_counts : (evs : List Event) (w : Writer) → known (run cfg evs w) ≡ known w + entered evs
  unfolding run step
  run_counts [] w = omega arith
  run_counts (reserves e ∷ evs) w =
      omega (arith, run_counts evs (reserve cfg e w), reserve-known e w)
  run_counts (sends i ∷ evs) w =
      omega (arith, run_counts evs (send cfg i w), send-known i (get_elem? w.reserved i) w refl)
  run_counts (receives k ∷ evs) w = omega (
    arith,
    run_counts evs (receive cfg k w),
    receive-known k (get_elem? w.flushers k) w.queue w refl refl,
  )
  run_counts (flushes k ok ∷ evs) w =
      omega (arith, run_counts evs (flush k ok w), flush-known k ok (get_elem? w.flushers k) w refl)
  run_counts (releases k ∷ evs) w =
      omega (arith, run_counts evs (release k w), release-known k (get_elem? w.flushers k) w refl)

idle-waiting : (n : ℕ) → all_waiting (idle n) ≡ 0
idle-waiting zero = refl
idle-waiting (suc n) = omega (arith, idle-waiting n)

start-known : (workers : ℕ) → known (start workers) ≡ 0
start-known workers = elim (Bool-cases (ltb workers 1)) [
  | inl e ↦ rw e (omega arith)
  | inr e ↦ rw e (omega (arith, idle-waiting workers))
]

-- In whatever order request goroutines and flushers act, and whether or not the store takes the
-- batches, the entries reserved, queued, waiting at a flusher, given to the store and counted as
-- dropped are together as many as the entries handed in.
pub run-known :
    (cfg : Config) (workers : ℕ) (evs : List Event)
    → known (run cfg evs (start workers)) ≡ entered evs
run-known cfg workers evs = omega (arith, run_counts cfg evs (start workers), start-known workers)

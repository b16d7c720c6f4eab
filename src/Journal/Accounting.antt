-- ===== src/Journal/Accounting.antt =====
-- internal/journal/journal.go: the bytes counted are those held, and both caps hold.
use mockulus.Prelude.{
  ℕ, zero, suc, ◌+◌, ◌≤◌, ◌<◌, ◌≡◌, refl, ap, Bool, ◌&&◌, Option, none, some, List, [], ◌∷◌, ◌++◌,
  ltb, leb, length, length-append, get_elem?, arith, Bool-cases, inl, inr,
}
use mockulus.Store.{JournalEntry}
use mockulus.Journal.Defs.{
  Config, Flusher, filling, written, Writer, idle, start, size_of, sizes, remove_at, set_at,
  reserve, send_entry, receive_by, flush_by, release_by, Event, reserves, sends, receives, flushes,
  releases, step, run,
}

abbrev batch_of : Flusher → List JournalEntry
batch_of (filling batch) = batch
batch_of (written batch) = batch

-- The bytes that the flushers hold.
abbrev pub held : List Flusher → ℕ
held [] = 0
held (f ∷ fs) = sizes (batch_of f) + held fs

pub record IsAccounted (cfg : Config) (w : Writer) : Type 0 where
  pub balance : w.bytes ≡ sizes w.reserved + (sizes w.queue + held w.flushers)
  pub capped : 0 < cfg.buffer_bytes → w.bytes ≤ cfg.buffer_bytes
  pub queued : length w.queue ≤ cfg.buffer_entries

sizes-append : (a b : List JournalEntry) → sizes (a ++ b) ≡ sizes a + sizes b
unfolding sizes
sizes-append [] b = omega arith
sizes-append (e ∷ a) b = omega (arith, sizes-append a b)

sizes-snoc : (a : List JournalEntry) (e : JournalEntry) → sizes (a ++ e ∷ []) ≡ sizes a + size_of e
unfolding sizes
sizes-snoc a e = omega (arith, sizes-append a (e ∷ []))

remove-sizes :
    (i : ℕ) (l : List JournalEntry) (e : JournalEntry)
    → get_elem? l i ≡ some e
    → sizes l ≡ size_of e + sizes (remove_at i l)
unfolding sizes
remove-sizes i [] e h = ground arith
remove-sizes zero (x ∷ l) e h = let same : x ≡ e = cc in ap (λ y. size_of y + sizes l) same
remove-sizes (suc i) (x ∷ l) e h = omega (arith, remove-sizes i l e h)

set-held :
    (k : ℕ) (fs : List Flusher) (f g : Flusher)
    → get_elem? fs k ≡ some f
    → held (set_at k g fs) + sizes (batch_of f) ≡ held fs + sizes (batch_of g)
set-held k [] f g h = ground arith
set-held zero (x ∷ fs) f g h =
    let eq : x ≡ f = cc in
    let same : sizes (batch_of x) ≡ sizes (batch_of f) = ap (λ y. sizes (batch_of y)) eq in
    omega (arith, same)
set-held (suc k) (x ∷ fs) f g h = omega (arith, set-held k fs f g h)

module _ (cfg : Config) where
  reserve-IsAccounted :
      (e : JournalEntry) (w : Writer) → IsAccounted cfg w → IsAccounted cfg (reserve cfg e w)
  unfolding reserve sizes
  reserve-IsAccounted e w h =
      elim (Bool-cases (ltb 0 cfg.buffer_bytes && ltb cfg.buffer_bytes (w.bytes + size_of e))) [
        | inl q ↦ rw q (record { balance = h.balance; capped = h.capped; queued = h.queued })
        | inr q ↦ rw q (record {
          balance = omega (arith, h.balance);
          capped = λ on. ground (arith, q, on);
          queued = h.queued;
        })
      ]

  send-IsAccounted :
      (i : ℕ) (o : Option JournalEntry) (w : Writer)
      → get_elem? w.reserved i ≡ o
      → IsAccounted cfg w
      → IsAccounted cfg (send_entry cfg i o w)
  unfolding send_entry
  send-IsAccounted i none w at h = h
  send-IsAccounted i (some e) w at h =
      let removed = remove-sizes i w.reserved e at in
      let balance = h.balance in
      let snoc = sizes-snoc w.queue e in
      elim (Bool-cases (ltb (length w.queue) cfg.buffer_entries)) [
        | inl q ↦ rw q (record {
          balance = omega (arith, removed, balance, snoc);
          capped = h.capped;
          queued = ground (arith, length-append w.queue (e ∷ []), q);
        })
        | inr q ↦ rw q (record {
          balance = omega (arith, removed, balance);
          capped = λ on. omega (arith, h.capped on);
          queued = h.queued;
        })
      ]

  receive-IsAccounted :
      (k : ℕ) (o : Option Flusher) (queue : List JournalEntry) (w : Writer)
      → get_elem? w.flushers k ≡ o
      → w.queue ≡ queue
      → IsAccounted cfg w
      → IsAccounted cfg (receive_by cfg k o queue w)
  unfolding receive_by sizes
  receive-IsAccounted k none queue w at q h = h
  receive-IsAccounted k (some (written b)) queue w at q h = h
  receive-IsAccounted k (some (filling b)) [] w at q h = h
  receive-IsAccounted k (some (filling b)) (e ∷ queue) w at q h =
      let total = ap sizes q in
      let many = ap length q in
      let same = set-held k w.flushers (filling b) (filling (b ++ e ∷ [])) at in
      let snoc = sizes-snoc b e in
      elim (Bool-cases (ltb 0 (length b) && leb cfg.batch_size (length b))) [
        | inl r ↦ rw r h
        | inr r ↦ rw r (record {
          balance = unfold sizes in omega (arith, h.balance, same, snoc, total);
          capped = h.capped;
          queued = omega (arith, h.queued, many);
        })
      ]

  flush-IsAccounted :
      (k : ℕ) (ok : Bool) (o : Option Flusher) (w : Writer)
      → get_elem? w.flushers k ≡ o
      → IsAccounted cfg w
      → IsAccounted cfg (flush_by k ok o w)
  unfolding flush_by
  flush-IsAccounted k ok none w at h = h
  flush-IsAccounted k ok (some (written b)) w at h = h
  flush-IsAccounted k ok (some (filling [])) w at h = h
  flush-IsAccounted k ok (some (filling (e ∷ b))) w at h =
      let same = set-held k w.flushers (filling (e ∷ b)) (written (e ∷ b)) at in
      record { balance = omega (arith, h.balance, same); capped = h.capped; queued = h.queued }

  release-IsAccounted :
      (k : ℕ) (o : Option Flusher) (w : Writer)
      → get_elem? w.flushers k ≡ o
      → IsAccounted cfg w
      → IsAccounted cfg (release_by k o w)
  unfolding release_by
  release-IsAccounted k none w at h = h
  release-IsAccounted k (some (filling b)) w at h = h
  release-IsAccounted k (some (written b)) w at h =
      let less = set-held k w.flushers (written b) (filling []) at in
      record {
        balance = unfold sizes in omega (arith, h.balance, less);
        capped = λ on. omega (arith, h.capped on);
        queued = h.queued;
      }

  step-IsAccounted : (ev : Event) (w : Writer) → IsAccounted cfg w → IsAccounted cfg (step cfg ev w)
  unfolding step
  step-IsAccounted (reserves e) w h = reserve-IsAccounted e w h
  step-IsAccounted (sends i) w h = send-IsAccounted i (get_elem? w.reserved i) w refl h
  step-IsAccounted (receives k) w h =
      receive-IsAccounted k (get_elem? w.flushers k) w.queue w refl refl h
  step-IsAccounted (flushes k ok) w h = flush-IsAccounted k ok (get_elem? w.flushers k) w refl h
  step-IsAccounted (releases k) w h = release-IsAccounted k (get_elem? w.flushers k) w refl h

  run_keeps : (evs : List Event) (w : Writer) → IsAccounted cfg w → IsAccounted cfg (run cfg evs w)
  unfolding run
  run_keeps [] w h = h
  run_keeps (ev ∷ evs) w h = run_keeps evs (step cfg ev w) (step-IsAccounted ev w h)

idle-held : (n : ℕ) → held (idle n) ≡ 0
unfolding sizes
idle-held zero = refl
idle-held (suc n) = omega (arith, idle-held n)

start-IsAccounted : (cfg : Config) (workers : ℕ) → IsAccounted cfg (start workers)
unfolding sizes
start-IsAccounted cfg workers = record {
  balance = elim (Bool-cases (ltb workers 1)) [
    | inl e ↦ rw e refl
    | inr e ↦ rw e (omega (arith, idle-held workers))
  ];
  capped = λ on. omega arith;
  queued = omega arith;
}

-- In whatever order request goroutines and flushers act, and whether or not the store takes the
-- batches, the bytes counted are those of the entries reserved, queued and held by flushers; where
-- there is a cap on bytes they are within it, and the queue is within its cap on entries.
pub run-IsAccounted :
    (cfg : Config) (workers : ℕ) (evs : List Event) → IsAccounted cfg (run cfg evs (start workers))
run-IsAccounted cfg workers evs = run_keeps cfg evs (start workers) (start-IsAccounted cfg workers)

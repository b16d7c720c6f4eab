-- ===== src/Journal/Defs.antt =====
-- internal/journal/journal.go: `Writer`, its request goroutines and its flushers. One event is one
-- action of one goroutine between two points where another may act: the critical sections of the
-- mutex, the channel's operations and the store's call. An event that cannot happen changes nothing.
use mockulus.Prelude.{
  ℕ, zero, suc, ◌+◌, ◌-◌, Bool, true, false, ◌&&◌, ◌||◌, Option, none, some, List, [], ◌∷◌, ◌++◌,
  Text, if◌then◌else◌, ltb, leb, length, get_elem?, take,
}
use mockulus.Store.{JournalEntry}

-- `buffer_bytes` of 0 or less is no cap.
pub record Config : Type 0 where
  pub buffer_entries : ℕ
  pub buffer_bytes : ℕ
  pub batch_size : ℕ

-- What a flusher holds: the batch that it fills, or one that it has given to the store and whose
-- bytes it has not yet released.
pub data Flusher : Type 0 where
  filling written : List JournalEntry → Flusher

-- `reserved` holds the entries whose bytes are counted and that are not yet on the channel;
-- `stored` is what the store has been given; `dropped` and `enqueued` are the counters.
pub record Writer : Type 0 where
  pub queue : List JournalEntry
  pub bytes : ℕ
  pub reserved : List JournalEntry
  pub flushers : List Flusher
  pub stored : List JournalEntry
  pub dropped : ℕ
  pub enqueued : ℕ

abbrev pub idle : ℕ → List Flusher
idle zero = []
idle (suc n) = filling [] ∷ idle n

-- `NewWriter` and `Start`, which starts one flusher at least.
abbrev pub start : ℕ → Writer
start workers = record {
  queue = [];
  bytes = 0;
  reserved = [];
  flushers = if ltb workers 1 then idle 1 else idle workers;
  stored = [];
  dropped = 0;
  enqueued = 0;
}

abbrev pub size_of : JournalEntry → ℕ
size_of e = length e.content

unfoldable pub sizes : List JournalEntry → ℕ
sizes [] = 0
sizes (e ∷ es) = size_of e + sizes es

abbrev pub remove_at : ℕ → List JournalEntry → List JournalEntry
remove_at i [] = []
remove_at zero (x ∷ xs) = xs
remove_at (suc i) (x ∷ xs) = x ∷ remove_at i xs

-- The first critical section of `enqueue`.
unfoldable pub reserve : Config → JournalEntry → Writer → Writer
reserve cfg e w =
    if ltb 0 cfg.buffer_bytes && ltb cfg.buffer_bytes (w.bytes + size_of e)
    then record w { dropped = w.dropped + 1 }
    else record w { bytes = w.bytes + size_of e; reserved = e ∷ w.reserved }

-- The `select` of `enqueue`, for the entry at a place among those reserved.
unfoldable pub send_entry : Config → ℕ → Option JournalEntry → Writer → Writer
send_entry cfg i none w = w
send_entry cfg i (some e) w =
    if ltb (length w.queue) cfg.buffer_entries
    then record w {
      queue = w.queue ++ e ∷ [];
      reserved = remove_at i w.reserved;
      enqueued = w.enqueued + 1;
    }
    else record w {
      bytes = w.bytes - size_of e;
      reserved = remove_at i w.reserved;
      dropped = w.dropped + 1;
    }

unfoldable pub send : Config → ℕ → Writer → Writer
unfolding send_entry
send cfg i w = send_entry cfg i (get_elem? w.reserved i) w

abbrev pub set_at : ℕ → Flusher → List Flusher → List Flusher
set_at i f [] = []
set_at zero f (x ∷ xs) = f ∷ xs
set_at (suc i) f (x ∷ xs) = x ∷ set_at i f xs

-- `case e := <-w.queue`: a batch that has reached its size is flushed before the next receipt.
unfoldable pub receive_by : Config → ℕ → Option Flusher → List JournalEntry → Writer → Writer
receive_by cfg k (some (filling batch)) (e ∷ queue) w =
    if ltb 0 (length batch) && leb cfg.batch_size (length batch)
    then w
    else record w { queue = queue; flushers = set_at k (filling (batch ++ e ∷ [])) w.flushers }
receive_by cfg k _ _ w = w

unfoldable pub receive : Config → ℕ → Writer → Writer
unfolding receive_by
receive cfg k w = receive_by cfg k (get_elem? w.flushers k) w.queue w

-- `flush` up to the return of `AppendJournal`, by whether that succeeded.
unfoldable pub flush_by : ℕ → Bool → Option Flusher → Writer → Writer
flush_by k ok (some (filling (e ∷ batch))) w = record w {
  stored = if ok then w.stored ++ (e ∷ batch) else w.stored;
  dropped = if ok then w.dropped else w.dropped + length (e ∷ batch);
  flushers = set_at k (written (e ∷ batch)) w.flushers;
}
flush_by k ok _ w = w

unfoldable pub flush : ℕ → Bool → Writer → Writer
unfolding flush_by
flush k ok w = flush_by k ok (get_elem? w.flushers k) w

-- The end of `flush`, and `batch[:0]`.
unfoldable pub release_by : ℕ → Option Flusher → Writer → Writer
unfolding sizes
release_by k (some (written batch)) w = record w {
  bytes = w.bytes - sizes batch;
  flushers = set_at k (filling []) w.flushers;
}
release_by k _ w = w

unfoldable pub release : ℕ → Writer → Writer
unfolding release_by
release k w = release_by k (get_elem? w.flushers k) w

pub data Event : Type 0 where
  reserves : JournalEntry → Event
  sends receives releases : ℕ → Event
  flushes : ℕ → Bool → Event

unfoldable pub step : Config → Event → Writer → Writer
unfolding reserve send receive flush release
step cfg (reserves e) w = reserve cfg e w
step cfg (sends i) w = send cfg i w
step cfg (receives k) w = receive cfg k w
step cfg (flushes k ok) w = flush k ok w
step cfg (releases k) w = release k w

unfoldable pub run : Config → List Event → Writer → Writer
unfolding step
run cfg [] w = w
run cfg (ev ∷ evs) w = run cfg evs (step cfg ev w)

-- `capBody`; a limit of 0 or less is no cap.
unfoldable pub cap_body : Text → ℕ → Text × Bool
cap_body body limit =
    if leb limit 0 || leb (length body) limit then (body, false) else (take limit body, true)

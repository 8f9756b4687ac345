-- ===== src/Applog/Async/Bounds.antt =====
-- The limits of the queue in internal/applog/async.go.
use fbs_interlock_gateway.Prelude.{
  length, length-append, ℕ, ◌+◌, ◌≤◌, ◌≡◌, refl, ap, Option, none, some, List, [], ◌∷◌, ◌++◌, arith,
}
use fbs_interlock_gateway.Text.{Text}
use fbs_interlock_gateway.Applog.Records.{truncate_record}
use fbs_interlock_gateway.Applog.Async.{
  async_queue_records, async_queue_bytes, ArchiveJob, log_record, barrier, AsyncStore, write_record,
  try_barrier, take_job, worker_takes, worker_finishes, Event, writes, flushes, takes, finishes,
  closes, react, run,
}

abbrev pub bytes_of : List ArchiveJob → ℕ
bytes_of [] = 0
bytes_of (log_record r ∷ q) = length r + bytes_of q
bytes_of (barrier b ∷ q) = bytes_of q

abbrev pub bytes_in_hand : Option Text → ℕ
bytes_in_hand none = 0
bytes_in_hand (some r) = length r

pub record IsBounded (a : AsyncStore) : Type 0 where
  pub exact : a.queued_bytes ≡ bytes_of a.queue + bytes_in_hand a.writing
  pub bytes_fit : a.queued_bytes ≤ async_queue_bytes
  pub records_fit : length a.queue ≤ async_queue_records

bytes_of-append : (q r : List ArchiveJob) → bytes_of (q ++ r) ≡ bytes_of q + bytes_of r
bytes_of-append [] r = omega arith
bytes_of-append (log_record x ∷ q) r = omega (arith, bytes_of-append q r)
bytes_of-append (barrier b ∷ q) r = bytes_of-append q r

write_record-IsBounded : (r : Text) (a : AsyncStore) → IsBounded a → IsBounded (write_record r a)
unfolding write_record
write_record-IsBounded r a i =
    ground (
      arith,
      bytes_of-append a.queue (log_record r ∷ []),
      length-append a.queue (log_record r ∷ []),
    )

try_barrier-IsBounded : (b : ℕ) (a : AsyncStore) → IsBounded a → IsBounded (try_barrier b a)
unfolding try_barrier
try_barrier-IsBounded b a i =
    ground (arith, bytes_of-append a.queue (barrier b ∷ []), length-append a.queue (barrier b ∷ []))

take_job-IsBounded :
    (q : List ArchiveJob) (a : AsyncStore)
    → a.queue ≡ q
    → a.writing ≡ none
    → IsBounded a
    → IsBounded (take_job q a)
unfolding take_job
take_job-IsBounded [] a e w i = i
take_job-IsBounded (barrier b ∷ q) a e w i = record {
  exact = omega (arith, i.exact, ap bytes_of e);
  bytes_fit = i.bytes_fit;
  records_fit = omega (arith, i.records_fit, ap length e);
}
take_job-IsBounded (log_record r ∷ q) a e w i = record {
  exact = omega (arith, i.exact, ap bytes_of e, ap bytes_in_hand w);
  bytes_fit = i.bytes_fit;
  records_fit = omega (arith, i.records_fit, ap length e);
}

worker_takes-IsBounded :
    (o : Option Text) (a : AsyncStore) → a.writing ≡ o → IsBounded a → IsBounded (worker_takes o a)
unfolding worker_takes
worker_takes-IsBounded none a w i = take_job-IsBounded a.queue a refl w i
worker_takes-IsBounded (some r) a w i = i

worker_finishes-IsBounded :
    (o : Option Text) (a : AsyncStore)
    → a.writing ≡ o
    → IsBounded a
    → IsBounded (worker_finishes o a)
unfolding worker_finishes
worker_finishes-IsBounded none a w i = i
worker_finishes-IsBounded (some r) a w i = record {
  exact = omega (arith, i.exact, ap bytes_in_hand w);
  bytes_fit = omega (arith, i.bytes_fit);
  records_fit = i.records_fit;
}

react-IsBounded : (m : ℕ) (e : Event) (a : AsyncStore) → IsBounded a → IsBounded (react m e a)
unfolding react
react-IsBounded m (writes p) a i = write_record-IsBounded (truncate_record p m) a i
react-IsBounded m (flushes b) a i = try_barrier-IsBounded b a i
react-IsBounded m takes a i = worker_takes-IsBounded a.writing a refl i
react-IsBounded m finishes a i = worker_finishes-IsBounded a.writing a refl i
react-IsBounded m closes a i = record {
  exact = i.exact;
  bytes_fit = i.bytes_fit;
  records_fit = i.records_fit;
}

-- In every course of events from a bounded store, such as a new one, the queue holds at most 1024
-- jobs, the byte counter is exactly the bytes that are queued or being written, and it is at most
-- 8 MiB.
pub run-IsBounded :
    (m : ℕ) (es : List Event) (a : AsyncStore) → IsBounded a → IsBounded (run m es a)
unfolding run
run-IsBounded m [] a i = i
run-IsBounded m (e ∷ es) a i = run-IsBounded m es (react m e a) (react-IsBounded m e a i)

-- ===== src/Applog/Async.antt =====
-- internal/applog/async.go: the queue between the loggers and the archive.
-- Each event is what one goroutine does at once: under the mutex, or on the channel.
pub mod Bounds
pub mod Order
use fbs_interlock_gateway.Prelude.{
  ltb, leb, ◌==◌, if◌then◌else◌, length, ℕ, ◌+◌, ◌-◌, ◌*◌, ◌%◌, ◌^◌, Bool, true, false, not, ◌&&◌,
  ◌||◌, Option, none, some, List, [], ◌∷◌, ◌++◌,
}
use fbs_interlock_gateway.Text.{Text}
use fbs_interlock_gateway.Applog.Records.{truncate_record}

abbrev pub async_queue_records : ℕ
async_queue_records = 1024

-- 8 MiB
abbrev pub async_queue_bytes : ℕ
async_queue_bytes = 8 * 2 ^ 20

-- A barrier is known by a number.
pub data ArchiveJob : Type 0 where
  log_record : Text → ArchiveJob
  barrier : ℕ → ArchiveJob

pub record AsyncStore : Type 0 where
  pub queue : List ArchiveJob
  pub queued_bytes : ℕ
  pub closed : Bool
  pub dropped : ℕ  -- atomic uint64
  pub writing : Option Text  -- the record that the worker has taken and not yet accounted for
  pub archive : List Text  -- what was handed to the store, oldest first
  pub passed : List ℕ  -- the barriers that the worker has closed, newest first

abbrev pub new_async_store : AsyncStore
new_async_store = record {
  queue = [];
  queued_bytes = 0;
  closed = false;
  dropped = 0;
  writing = none;
  archive = [];
  passed = [];
}

abbrev pub u64 : ℕ → ℕ
u64 n = n % 2 ^ 64

drop_record : AsyncStore → AsyncStore
drop_record a = record a { dropped = u64 (a.dropped + 1) }

enqueue_record : Text → AsyncStore → AsyncStore
enqueue_record r a = record a {
  queue = a.queue ++ log_record r ∷ [];
  queued_bytes = a.queued_bytes + length r;
}

-- Whether `Write` takes the record in.
pub accepts : Text → AsyncStore → Bool
accepts r a =
    not a.closed
    && leb (a.queued_bytes + length r) async_queue_bytes
    && not (length a.queue == async_queue_records)

-- `Write` of a record that was cut to its size; it always reports that all was written.
write_record : Text → AsyncStore → AsyncStore
unfolding drop_record enqueue_record
write_record r a =
    if a.closed || ltb async_queue_bytes (a.queued_bytes + length r)
    then (if a.closed then a else drop_record a)
    else if length a.queue == async_queue_records
    then drop_record a
    else enqueue_record r a

-- One try of `Flush` to put its barrier into the queue.
try_barrier : ℕ → AsyncStore → AsyncStore
try_barrier b a =
    if a.closed || leb async_queue_records (length a.queue)
    then a
    else record a { queue = a.queue ++ barrier b ∷ [] }

take_job : List ArchiveJob → AsyncStore → AsyncStore
take_job [] a = a
take_job (barrier b ∷ rest) a = record a { queue = rest; passed = b ∷ a.passed }
take_job (log_record r ∷ rest) a = record a { queue = rest; writing = some r }

-- The worker takes the next job, when it is not busy with one.
worker_takes : Option Text → AsyncStore → AsyncStore
unfolding take_job
worker_takes (some r) a = a
worker_takes none a = take_job a.queue a

-- The worker has written the record, well or not, and gives its bytes back.
worker_finishes : Option Text → AsyncStore → AsyncStore
worker_finishes none a = a
worker_finishes (some r) a = record a {
  writing = none;
  archive = a.archive ++ r ∷ [];
  queued_bytes = a.queued_bytes - length r;
}

pub data Event : Type 0 where
  writes : Text → Event
  flushes : ℕ → Event
  takes finishes closes : Event

module _ (max_record_bytes : ℕ) where
  unfoldable pub react : Event → AsyncStore → AsyncStore
  unfolding write_record try_barrier worker_takes worker_finishes
  react (writes p) a = write_record (truncate_record p max_record_bytes) a
  react (flushes b) a = try_barrier b a
  react takes a = worker_takes a.writing a
  react finishes a = worker_finishes a.writing a
  react closes a = record a { closed = true }

  pub run : List Event → AsyncStore → AsyncStore
  run [] a = a
  run (e ∷ es) a = run es (react e a)

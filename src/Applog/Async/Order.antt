-- ===== src/Applog/Async/Order.antt =====
-- The order of records in internal/applog/async.go.
use mathlib.Core.List.{append-nil, append_assoc}
use fbs_interlock_gateway.Prelude.{
  if◌then◌else◌, Bool-cases, ltb, leb, inl, inr, ◌==◌, length, Bool, true, false, not, ◌&&◌, ◌||◌,
  ◌+◌, ℕ, ◌≡◌, refl, sym, ap, ◌∙◌, Option, none, some, List, [], ◌∷◌, ◌++◌, arith,
}
use fbs_interlock_gateway.Text.{Text}
use fbs_interlock_gateway.Applog.Records.{truncate_record}
use fbs_interlock_gateway.Applog.Async.{
  accepts, async_queue_records, async_queue_bytes, ArchiveJob, log_record, barrier, AsyncStore,
  drop_record, enqueue_record, write_record, try_barrier, take_job, worker_takes, worker_finishes,
  Event, writes, flushes, takes, finishes, closes, react, run,
}

abbrev pub records_of : List ArchiveJob → List Text
records_of [] = []
records_of (log_record r ∷ q) = r ∷ records_of q
records_of (barrier b ∷ q) = records_of q

abbrev pub in_hand : Option Text → List Text
in_hand none = []
in_hand (some r) = r ∷ []

-- All that was accepted: archived, in the worker's hand, and queued.
abbrev pub held : AsyncStore → List Text
held a = a.archive ++ (in_hand a.writing ++ records_of a.queue)

-- The record that an event brings in.
accepted_by : ℕ → Event → AsyncStore → List Text
accepted_by m (writes p) a =
    if accepts (truncate_record p m) a then truncate_record p m ∷ [] else []
accepted_by m (flushes b) a = []
accepted_by m takes a = []
accepted_by m finishes a = []
accepted_by m closes a = []

-- The records that the events bring in.
pub accepted : ℕ → List Event → AsyncStore → List Text
unfolding accepted_by
accepted m [] a = []
accepted m (e ∷ es) a = accepted_by m e a ++ accepted m es (react m e a)

records_of-append : (q r : List ArchiveJob) → records_of (q ++ r) ≡ records_of q ++ records_of r
records_of-append [] r = refl
records_of-append (log_record x ∷ q) r = cc (records_of-append q r)
records_of-append (barrier b ∷ q) r = records_of-append q r

held-enqueue_record : (r : Text) (a : AsyncStore) → held (enqueue_record r a) ≡ held a ++ r ∷ []
unfolding enqueue_record
held-enqueue_record r a = simp (records_of-append, append_assoc)

held-drop_record : (a : AsyncStore) → held (drop_record a) ≡ held a ++ []
unfolding drop_record
held-drop_record a = sym (append-nil _)

write_branches : Bool → Bool → Bool → Text → AsyncStore → AsyncStore
write_branches closed too_big full r a =
    if closed || too_big
    then (if closed then a else drop_record a)
    else if full
    then drop_record a
    else enqueue_record r a

held-write_branches :
    (closed fits full : Bool) (r : Text) (a : AsyncStore)
    → held (write_branches closed (not fits) full r a)
      ≡ held a ++ (if not closed && fits && not full then r ∷ [] else [])
unfolding write_branches
held-write_branches true fits full r a = sym (append-nil _)
held-write_branches false false full r a = held-drop_record a
held-write_branches false true true r a = held-drop_record a
held-write_branches false true false r a = held-enqueue_record r a

ltb-leb : (a b : ℕ) → ltb b a ≡ not (leb a b)
ltb-leb a b = ground arith

held-write_record :
    (r : Text) (a : AsyncStore)
    → held (write_record r a) ≡ held a ++ (if accepts r a then r ∷ [] else [])
unfolding write_record accepts write_branches
held-write_record r a =
    ap (λ c. held (write_branches a.closed c (length a.queue == async_queue_records) r a))
      (ltb-leb (a.queued_bytes + length r) async_queue_bytes)
    ∙ held-write_branches a.closed (leb (a.queued_bytes + length r) async_queue_bytes)
        (length a.queue == async_queue_records) r a

held-try_barrier : (b : ℕ) (a : AsyncStore) → held (try_barrier b a) ≡ held a
unfolding try_barrier
held-try_barrier b a = elim (Bool-cases (a.closed || leb async_queue_records (length a.queue))) [
  | inl e ↦ simp e
  | inr e ↦ simp (e, records_of-append, append-nil)
]

held-take_job :
    (q : List ArchiveJob) (a : AsyncStore)
    → a.queue ≡ q
    → a.writing ≡ none
    → held (take_job q a) ≡ held a
unfolding take_job
held-take_job [] a e w = refl
held-take_job (barrier b ∷ q) a e w = simp (e, w)
held-take_job (log_record r ∷ q) a e w = simp (e, w)

held-worker_takes :
    (o : Option Text) (a : AsyncStore) → a.writing ≡ o → held (worker_takes o a) ≡ held a
unfolding worker_takes
held-worker_takes none a w = held-take_job a.queue a refl w
held-worker_takes (some r) a w = refl

held-worker_finishes :
    (o : Option Text) (a : AsyncStore) → a.writing ≡ o → held (worker_finishes o a) ≡ held a
unfolding worker_finishes
held-worker_finishes none a w = refl
held-worker_finishes (some r) a w = simp (w, append_assoc)

held-react : (m : ℕ) (e : Event) (a : AsyncStore) → held (react m e a) ≡ held a ++ accepted_by m e a
unfolding react accepted_by
held-react m (writes p) a = held-write_record (truncate_record p m) a
held-react m (flushes b) a = held-try_barrier b a ∙ sym (append-nil _)
held-react m takes a = held-worker_takes a.writing a refl ∙ sym (append-nil _)
held-react m finishes a = held-worker_finishes a.writing a refl ∙ sym (append-nil _)
held-react m closes a = sym (append-nil _)

-- In every course of events, what the archive holds, then what the worker has in hand, then what is
-- queued is what it was at the start followed by the accepted records in their order: an accepted
-- record is neither lost, repeated nor overtaken, whatever barriers, refusals and closing come
-- between.
pub held-run :
    (m : ℕ) (es : List Event) (a : AsyncStore) → held (run m es a) ≡ held a ++ accepted m es a
unfolding run accepted
held-run m [] a = sym (append-nil _)
held-run m (e ∷ es) a = simp (held-run m es (react m e a), held-react m e a, append_assoc)

-- ===== src/ReaderMgr/Fill.antt =====
-- bgpstream_reader_mgr_add: the readers of new inputs, each with its first read, enter the queue.
use bgpstream.Base.{
  ℕ, ◌+◌, ◌<◌, ◌≡◌, refl, Bool, true, false, List, [], ◌∷◌, arith, inl, inr, if◌then◌else◌,
  Bool-cases, All,
}
use bgpstream.Filter.{Interval, FilterMgr}
use bgpstream.Input.{Input}
use bgpstream.Reader.{
  Reader, Event, entry, gap, corrupted, eof_status, read_loop, read_opened, wait_for_dump,
  thread_producer, read_new_data, filter_bd_entry, is_valid_entry, is_end_of_dump, reader_create,
  open_loop, dump_open_max_retries, dump_open_min_retry_wait,
}
use bgpstream.ReaderMgr.{
  ReaderMgr, MgrStatus, empty, non_empty, create, sorted_insert, Dumps, period_check,
  create_readers, insert_readers, mgr_add, Record,
}
use bgpstream.ReaderMgr.Order.{
  Ascends, IsOrdered, IsConsistent, IsValid, read_new_data-IsOrdered, sorted_insert-IsValid,
  insert_loop-All,
}
use bgpstream.ReaderMgr.Complete.{
  entries_left, count, pending, pending_all, calls_left_all, IsOpen, read_loop-pending,
  insert_loop-pending_all,
}
use bgpstream.ReaderMgr.Stream.{run, IsNonDecreasing, run-IsNonDecreasing}
use bgpstream.ReaderMgr.Delivery.{valid_times, run_complete}

-- A reader as reader_create leaves it.
pub record IsFresh (r : Reader) : Type 0 where
  pub status : is_valid_entry r.status ≡ true
  pub unread : r.valid_read ≡ 0
  pub unchecked : r.skip_dump_check ≡ false

-- Whether one of the tries opens the dump.
unfoldable pub opens : Reader → Bool
opens r = (open_loop dump_open_max_retries r.attempts dump_open_min_retry_wait 0).0

read_loop-fresh :
    (intervals : List Interval) (r : Reader) (events : List Event)
    → r.valid_read ≡ 0
    → is_end_of_dump (read_loop intervals r events).status ≡ false
unfolding read_loop eof_status is_end_of_dump
read_loop-fresh intervals r [] e = ground arith
read_loop-fresh intervals r (gap ∷ events) e = read_loop-fresh intervals r events e
read_loop-fresh intervals r (corrupted ∷ events) e = refl
read_loop-fresh intervals r (entry t ∷ events) e = elim (Bool-cases (filter_bd_entry intervals t)) [
  | inl pass ↦ rw pass
  | inr skip ↦
      rw skip
        (read_loop-fresh intervals (record r { successful_read = r.successful_read + 1 }) events e)
]

-- The first read of a fresh reader: it does not end the dump as one that was delivered, and what it
-- leaves to deliver is what the dump holds, or nothing if the dump does not open.
module _ (test : ℕ → Bool) (intervals : List Interval) (r : Reader) (f : IsFresh r) where
  first_read :
      (is_end_of_dump (read_new_data intervals r).status ≡ false)
      × IsOpen (read_new_data intervals r)
      × (pending test intervals (read_new_data intervals r)
          ≡ (if opens r then count test (entries_left intervals r.events) else 0))
  unfolding read_new_data read_opened wait_for_dump thread_producer opens
  first_read = elim (Bool-cases (opens r)) [
    | inl opened ↦
        let (p, c, s) =
          read_loop-pending test intervals (record r { skip_dump_check = true }) r.events refl in
        rw (f.status, f.unchecked, opened, f.status)
          (
            read_loop-fresh intervals (record r { skip_dump_check = true }) r.events f.unread,
            λ _. s,
            p,
          )
    | inr failed ↦
        rw (f.status, f.unchecked, failed)
          (unfold is_valid_entry is_end_of_dump pending in (refl, λ x. absurd (cc x), refl))
  ]

-- What the readers hold in all, if their dumps open: the entries that pass the filter, in each dump up
-- to its first corrupted read.
unfoldable pub dumps_hold : (ℕ → Bool) → List Interval → List Reader → ℕ
dumps_hold test intervals [] = 0
dumps_hold test intervals (r ∷ next) =
    (if opens r then count test (entries_left intervals r.events) else 0)
    + dumps_hold test intervals next

sorted_insert-pending :
    (test : ℕ → Bool) (intervals : List Interval) (queue : List Reader) (status : MgrStatus)
    (r : Reader)
    → IsConsistent status queue
    → All IsOpen queue
    → IsOpen r
    → All IsOpen (sorted_insert (record { reader_queue = queue; status = status }) r).reader_queue
      × (pending_all test intervals
            (sorted_insert (record { reader_queue = queue; status = status }) r).reader_queue
          ≡ pending test intervals r + pending_all test intervals queue)
unfolding sorted_insert
sorted_insert-pending test intervals [] empty r c a o = ((o, tt), unfold pending_all in refl)
sorted_insert-pending test intervals (q ∷ next) empty r c a o = absurd c
sorted_insert-pending test intervals queue non_empty r c a o =
    (insert_loop-All IsOpen r queue o a, insert_loop-pending_all test intervals r queue)

-- A manager that is valid from the first record on, with its dumps open.
pub record IsFilled (test : ℕ → Bool) (intervals : List Interval) (n : ℕ) (mgr : ReaderMgr)
    : Type 0 where
  pub valid : IsValid 0 mgr
  pub open_dumps : All IsOpen mgr.reader_queue
  pub holds : pending_all test intervals mgr.reader_queue ≡ n

insert_readers-IsFilled :
    (test : ℕ → Bool) (intervals : List Interval) (readers : List Reader) (mgr : ReaderMgr) (n : ℕ)
    → All IsFresh readers
    → All IsOrdered readers
    → IsFilled test intervals n mgr
    → IsFilled test intervals
        (dumps_hold test intervals readers + n)
        (insert_readers intervals readers mgr)
unfolding insert_readers dumps_hold
insert_readers-IsFilled test intervals [] mgr n f o h = record {
  valid = h.valid;
  open_dumps = h.open_dumps;
  holds = omega (arith, h.holds);
}
insert_readers-IsFilled test intervals (r ∷ next) mgr n f o h =
    let (not_ended, is_open, holds) = first_read test intervals r f.0 in
    let (later, ordered) = read_new_data-IsOrdered intervals r o.0 in
    let (opened, sum) =
      sorted_insert-pending test intervals mgr.reader_queue mgr.status (read_new_data intervals r)
        h.valid.consistent h.open_dumps is_open in
    let filled =
      insert_readers-IsFilled test intervals next (sorted_insert mgr (read_new_data intervals r))
        ((if opens r then count test (entries_left intervals r.events) else 0) + n) f.1 o.1
        (record {
          valid =
              sorted_insert-IsValid 0 mgr (read_new_data intervals r) h.valid (omega arith)
                (ordered, not_ended);
          open_dumps = opened;
          holds = omega (arith, sum, holds, h.holds);
        }) in
    record {
      valid = filled.valid;
      open_dumps = filled.open_dumps;
      holds = omega (arith, filled.holds);
    }

-- The dumps of the inputs are in the order of time, from the time of the file on.
abbrev pub AreOrdered : Dumps → List Input → Type 0
AreOrdered dumps inputs = All (λ (i : Input). Ascends i.epoch_filetime (dumps.events i)) inputs

create_readers-IsFresh :
    (dumps : Dumps) (inputs : List Input) (filter : FilterMgr)
    → AreOrdered dumps inputs
    → All IsFresh (create_readers dumps inputs filter).0
      × All IsOrdered (create_readers dumps inputs filter).0
unfolding create_readers reader_create
create_readers-IsFresh dumps [] filter h = (tt, tt)
create_readers-IsFresh dumps (input ∷ next) filter h =
    let (f, o) = create_readers-IsFresh dumps next (period_check input filter).1 h.1 in
    elim (Bool-cases (period_check input filter).0) [
      | inl pass ↦ rw pass (
        (record { status = unfold is_valid_entry in refl; unread = refl; unchecked = refl }, f),
        (h.0, o),
      )
      | inr skip ↦ rw skip (f, o)
    ]

-- Inputs whose dumps are in the order of time, added to an empty manager, are merged: for every
-- number of calls the records come in the order of time; and with a call more than the readers can
-- take, the stream ends, and has delivered, whatever test of times they are counted by, as many valid
-- records as entries pass the interval filter in the dumps that pass the period check and open, up to
-- the first corrupted read of each dump: what a dump has behind that read is not delivered.
pub merged_stream :
    (dumps : Dumps) (inputs : List Input) (filter : FilterMgr) (rec : Record)
    → AreOrdered dumps inputs
    → let (mgr, filter') = mgr_add dumps create inputs filter in
      ((calls : ℕ) → IsNonDecreasing 0 (run calls mgr rec filter').0)
      × ((test : ℕ → Bool) (calls : ℕ)
          → calls_left_all mgr.reader_queue < calls
          → (count test (valid_times (run calls mgr rec filter').0)
              ≡ dumps_hold test filter'.time_intervals (create_readers dumps inputs filter).0)
            × ((run calls mgr rec filter').1 ≡ true))
unfolding mgr_add
merged_stream dumps inputs filter rec h =
    let readers = (create_readers dumps inputs filter).0 in
    let filter' = (create_readers dumps inputs filter).1 in
    let mgr = insert_readers filter'.time_intervals readers create in
    let (f, o) = create_readers-IsFresh dumps inputs filter h in
    let filled = λ (test : ℕ → Bool).
      insert_readers-IsFilled test filter'.time_intervals readers create 0 f o (record {
        valid = record { consistent = tt; sorted = tt; ready = tt };
        open_dumps = tt;
        holds = unfold pending_all in refl;
      }) in
    (
      λ calls. run-IsNonDecreasing calls 0 mgr rec filter' (filled (λ _. true)).valid,
      λ test calls p.
          let (told, ends) =
            run_complete test calls 0 mgr rec filter' (filled test).valid (filled test).open_dumps
              p in
          (omega (arith, told, (filled test).holds), ends),
    )

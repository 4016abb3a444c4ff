-- ===== src/ReaderMgr/Delivery.antt =====
-- What the calls of get_next_record deliver in the end: the entries of all dumps that pass the filter.
use bgpstream.Base.{
  ℕ, zero, suc, ◌+◌, ◌≤◌, ◌<◌, ◌≡◌, refl, ◌∙◌, Bool, true, false, List, [], ◌∷◌, arith, inl, inr,
  if◌then◌else◌, Bool-cases, All, none, length,
}
use bgpstream.Filter.{Interval, FilterMgr}
use bgpstream.Reader.{Status, Reader, is_valid_entry, is_end_of_dump}
use bgpstream.ReaderMgr.{
  ReaderMgr, MgrStatus, empty, non_empty, Record, RecordStatus, valid_record, export_record,
  export_filter, after_read, next_at_head, get_next_record, record_status, note_time, dump_end,
}
use bgpstream.ReaderMgr.Order.{IsValid}
use bgpstream.ReaderMgr.Stream.{run, next_at_head-IsOrderedNext}
use bgpstream.ReaderMgr.Complete.{
  entries_left, count, pending, pending_all, calls_left, calls_left_all, IsOpen, Holds,
  after_read-Holds, queue-pop_head,
}

unfoldable pub is_valid_record : RecordStatus → Bool
is_valid_record valid_record = true
is_valid_record _ = false

-- The times of the valid records.
unfoldable pub valid_times : List Record → List ℕ
valid_times [] = []
valid_times (rec ∷ recs) =
    if is_valid_record rec.status then rec.record_time ∷ valid_times recs else valid_times recs

export_filter-intervals :
    (r : Reader) (filter : FilterMgr)
    → (export_filter r filter).time_intervals ≡ filter.time_intervals
unfolding export_filter note_time
export_filter-intervals r filter = ground arith

is_valid_record-status : (s : Status) → is_valid_record (record_status s) ≡ is_valid_entry s
unfolding is_valid_record record_status is_valid_entry
is_valid_record-status s = ground arith

export_record-status :
    (r : Reader) (rec : Record)
    → is_end_of_dump r.status ≡ false
    → ((export_record r rec).status ≡ record_status r.status)
      × ((export_record r rec).record_time ≡ r.record_time)
unfolding export_record
export_record-status r rec e = rw e (refl, refl)

after_read-record :
    (intervals : List Interval) (mgr : ReaderMgr) (r : Reader) (next : List Reader) (rec : Record)
    → ((after_read intervals mgr r next rec).0.status ≡ rec.status)
      × ((after_read intervals mgr r next rec).0.record_time ≡ rec.record_time)
unfolding after_read
after_read-record intervals mgr r next rec = ground arith

-- 1 for a valid record whose time passes the test.
unfoldable pub tally : (ℕ → Bool) → Record → ℕ
tally test rec = if is_valid_record rec.status then (if test rec.record_time then 1 else 0) else 0

tally_lem :
    (test : ℕ → Bool) (rec : Record) (s : Status) (t : ℕ)
    → rec.status ≡ record_status s
    → rec.record_time ≡ t
    → tally test rec ≡ (if is_valid_entry s then (if test t then 1 else 0) else 0)
unfolding tally
tally_lem test rec s t e f = rw (e, f, is_valid_record-status s)

-- What a queue holds, told for its head and for the rest.
module _ (test : ℕ → Bool) (intervals : List Interval) (n c : ℕ) (r : Reader) (next : List Reader)
    (h : Holds test intervals n (suc c) (r ∷ next)) where
  head_valid :
      is_valid_entry r.status ≡ true
      → ((if test r.record_time then 1 else 0)
            + (count test (entries_left intervals r.events) + pending_all test intervals next)
          ≡ n)
        × (1 + length r.events + calls_left_all next ≤ c)
  unfolding pending_all pending calls_left_all calls_left
  head_valid valid =
      let a : pending_all test intervals (r ∷ next) ≡ n = h.all_pending in
      let b : calls_left_all (r ∷ next) ≤ suc c = h.calls in
      (omega (arith, rw valid at a), omega (arith, rw valid at b))

  head_stopped :
      is_valid_entry r.status ≡ false
      → (pending_all test intervals next ≡ n) × (calls_left_all next ≤ c)
  unfolding pending_all pending calls_left_all calls_left
  head_stopped stopped =
      let a : pending_all test intervals (r ∷ next) ≡ n = h.all_pending in
      let b : calls_left_all (r ∷ next) ≤ suc c = h.calls in
      (omega (arith, rw stopped at a), omega (arith, rw stopped at b))

next_at_head-Holds :
    (test : ℕ → Bool) (n c : ℕ) (r : Reader) (next : List Reader) (rec : Record)
    (filter : FilterMgr)
    → is_end_of_dump r.status ≡ false
    → Holds test filter.time_intervals n (suc c) (r ∷ next)
    → let out =
        next_at_head (record { reader_queue = r ∷ next; status = non_empty }) r next rec filter in
      (k : ℕ) × (tally test out.rec + k ≡ n)
      × Holds test out.filter.time_intervals k c out.mgr.reader_queue
unfolding next_at_head
next_at_head-Holds test n c r next rec filter e h =
    let mgr : ReaderMgr = record { reader_queue = r ∷ next; status = non_empty } in
    let (same_status, same_time) = export_record-status r rec e in
    let rest : Holds test filter.time_intervals (pending_all test filter.time_intervals next)
        (calls_left_all next) next =
      record { all_pending = refl; calls = omega arith; open_dumps = h.open_dumps.1 } in
    elim (Bool-cases (is_valid_entry r.status)) [
      | inl valid ↦
          let (p, q) = head_valid test filter.time_intervals n c r next h valid in
          let head : Reader = record r { bd_entry = none } in
          let (st, ti) =
            after_read-record filter.time_intervals mgr head next (export_record r rec) in
          let held =
            after_read-Holds test filter.time_intervals mgr head next (export_record r rec) _ _ refl
              valid (h.open_dumps.0 valid) rest in
          let counted =
            tally_lem test (after_read filter.time_intervals mgr head next (export_record r rec)).0
              r.status r.record_time (st ∙ same_status) (ti ∙ same_time) in
          rw (valid, export_filter-intervals r filter)
            (
              count test (entries_left filter.time_intervals r.events)
                  + pending_all test filter.time_intervals next,
              omega (arith, rw valid at counted, p),
              record {
                all_pending = held.all_pending;
                calls = omega (arith, held.calls, q);
                open_dumps = held.open_dumps;
              },
            )
      | inr stopped ↦
          let (p, q) = head_stopped test filter.time_intervals n c r next h stopped in
          let counted =
            tally_lem test (record (export_record r rec) { dump_pos = dump_end }) r.status
              r.record_time same_status same_time in
          rw (stopped, export_filter-intervals r filter, queue-pop_head mgr next)
            (
              n,
              omega (arith, rw stopped at counted),
              record { all_pending = p; calls = q; open_dumps = h.open_dumps.1 },
            )
    ]

count-valid_times :
    (test : ℕ → Bool) (rec : Record) (recs : List Record)
    → count test (valid_times (rec ∷ recs)) ≡ tally test rec + count test (valid_times recs)
unfolding count valid_times tally
count-valid_times test rec recs = ground arith

code-next_at_head :
    (mgr : ReaderMgr) (r : Reader) (next : List Reader) (rec : Record) (filter : FilterMgr)
    → (next_at_head mgr r next rec filter).code ≡ 1
unfolding next_at_head
code-next_at_head mgr r next rec filter = ground arith

calls_left_all-pos : (r : Reader) (next : List Reader) → 0 < calls_left_all (r ∷ next)
unfolding calls_left_all calls_left
calls_left_all-pos r next = ground arith

run_at :
    (test : ℕ → Bool) (calls n c b : ℕ) (queue : List Reader) (status : MgrStatus) (rec : Record)
    (filter : FilterMgr)
    → IsValid b (record { reader_queue = queue; status = status })
    → Holds test filter.time_intervals n c queue
    → c < calls
    → let out = run calls (record { reader_queue = queue; status = status }) rec filter in
      (count test (valid_times out.0) ≡ n) × (out.1 ≡ true)
unfolding run get_next_record
run_at test zero n c b queue status rec filter v h p = absurd (omega arith)
run_at test (suc calls) n c b [] empty rec filter v h p =
    unfold pending_all count valid_times in (h.all_pending, refl)
run_at test (suc calls) n c b (r ∷ next) empty rec filter v h p = absurd v.consistent
run_at test (suc calls) n c b [] non_empty rec filter v h p = absurd v.consistent
run_at test (suc calls) n zero b (r ∷ next) non_empty rec filter v h p =
    absurd (omega (arith, h.calls, calls_left_all-pos r next))
run_at test (suc calls) n (suc c) b (r ∷ next) non_empty rec filter v h p =
    let out =
      next_at_head (record { reader_queue = r ∷ next; status = non_empty }) r next rec filter in
    let one =
      code-next_at_head (record { reader_queue = r ∷ next; status = non_empty }) r next rec
        filter in
    let (k, told, held) = next_at_head-Holds test n c r next rec filter v.ready.0.1 h in
    let ordered = next_at_head-IsOrderedNext b r next rec filter v.sorted v.ready in
    let (counted, ends) =
      run_at test calls k c out.rec.record_time out.mgr.reader_queue out.mgr.status out.rec
        out.filter (ordered.in_order one).1 held (omega arith) in
    rw one (
      omega (
        arith,
        count-valid_times test out.rec (run calls out.mgr out.rec out.filter).0,
        told,
        counted,
      ),
      ends,
    )

-- From a valid manager, as many calls as the dumps hold events suffice: a call then returns 0, and
-- whatever the test, the valid records delivered whose times pass it are as many as the current
-- entries of the readers and the later ones that pass the interval filter, up to the first corrupted
-- read of each dump: what a dump has behind that read is not delivered.
pub run_complete :
    (test : ℕ → Bool) (calls b : ℕ) (mgr : ReaderMgr) (rec : Record) (filter : FilterMgr)
    → IsValid b mgr
    → All IsOpen mgr.reader_queue
    → calls_left_all mgr.reader_queue < calls
    → (count test (valid_times (run calls mgr rec filter).0)
        ≡ pending_all test filter.time_intervals mgr.reader_queue)
      × ((run calls mgr rec filter).1 ≡ true)
run_complete test calls b mgr rec filter v o p =
    run_at test calls (pending_all test filter.time_intervals mgr.reader_queue)
      (calls_left_all mgr.reader_queue) b mgr.reader_queue mgr.status rec filter v
      (record { all_pending = refl; calls = omega arith; open_dumps = o }) p

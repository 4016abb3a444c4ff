-- ===== src/ReaderMgr/Stream.antt =====
-- The stream of records: get_next_record delivers them in the order of time.
use bgpstream.Base.{
  ℕ, zero, suc, ◌-◌, ◌≤◌, ◌≡◌, ◌⊎◌, refl, Bool, true, false, List, [], ◌∷◌, arith, inl, inr,
  if◌then◌else◌, Bool-cases, All, some, none, ◌==◌,
}
use bgpstream.Filter.{Interval, FilterMgr}
use bgpstream.Reader.{Reader, read_new_data, is_valid_entry, is_end_of_dump}
use bgpstream.ReaderMgr.{
  ReaderMgr, MgrStatus, empty, non_empty, pop_head, Record, Next, export_record, export_filter,
  after_read, next_at_head, get_next_record, dump_end,
}
use bgpstream.ReaderMgr.Order.{
  IsOrdered, read_new_data-IsOrdered, IsSorted, IsConsistent, IsReady, IsValid,
  sorted_insert-IsValid, pop_head-IsValid,
}

record_time-if :
    (b : Bool) (rec : Record) (t : ℕ)
    → rec.record_time ≡ t
    → (if b then record rec { dump_pos = dump_end } else rec).record_time ≡ t
record_time-if true rec t e = e
record_time-if false rec t e = e

-- The manager behind the head's read is valid from the time of the exported record on.
after_read-IsValid :
    (intervals : List Interval) (mgr : ReaderMgr) (r : Reader) (next : List Reader) (rec : Record)
    → mgr.status ≡ non_empty
    → rec.record_time ≡ r.record_time
    → IsOrdered r
    → IsSorted r.record_time next
    → All IsReady next
    → ((after_read intervals mgr r next rec).0.record_time ≡ r.record_time)
      × IsValid r.record_time (after_read intervals mgr r next rec).1
unfolding after_read
after_read-IsValid intervals mgr r next rec st e o s a =
    let (later, ordered) = read_new_data-IsOrdered intervals r o in
    elim (Bool-cases (is_end_of_dump (read_new_data intervals r).status)) [
      | inl ended ↦
          let rec_time =
            record_time-if
              ((read_new_data intervals r).successful_read - (read_new_data intervals r).valid_read
                == r.successful_read - r.valid_read)
              rec r.record_time e in
          rw ended (rec_time, pop_head-IsValid r.record_time mgr next st s a)
      | inr more ↦
          rw more (elim (Bool-cases ((read_new_data intervals r).record_time == rec.record_time)) [
            | inl stays ↦
                let same : (read_new_data intervals r).record_time ≡ r.record_time = ground arith in
                rw stays (
                  e,
                  record {
                    consistent = rw st tt;
                    sorted = (later, rw same s);
                    ready = ((ordered, more), a);
                  },
                )
            | inr moves ↦ rw moves (
              e,
              sorted_insert-IsValid r.record_time (pop_head mgr next) (read_new_data intervals r)
                  (pop_head-IsValid r.record_time mgr next st s a) later (ordered, more),
            )
          ])
    ]

export_record-time :
    (r : Reader) (rec : Record)
    → is_end_of_dump r.status ≡ false
    → (export_record r rec).record_time ≡ r.record_time
unfolding export_record
export_record-time r rec e = rw e

-- What one call promises of a manager that is valid from b on.
pub record IsOrderedNext (b : ℕ) (mgr : ReaderMgr) (next : Next) : Type 0 where
  pub code : (next.code ≡ 0) ⊎ (next.code ≡ 1)
  pub nothing_left : next.code ≡ 0 → (mgr.reader_queue ≡ []) × (next.mgr ≡ mgr)
  pub in_order : next.code ≡ 1 → (b ≤ next.rec.record_time) × IsValid next.rec.record_time next.mgr

pub next_at_head-IsOrderedNext :
    (b : ℕ) (r : Reader) (next : List Reader) (rec : Record) (filter : FilterMgr)
    → IsSorted b (r ∷ next)
    → All IsReady (r ∷ next)
    → IsOrderedNext b
        (record { reader_queue = r ∷ next; status = non_empty })
        (next_at_head (record { reader_queue = r ∷ next; status = non_empty }) r next rec filter)
unfolding next_at_head
next_at_head-IsOrderedNext b r next rec filter s a =
    let e = export_record-time r rec a.0.1 in
    elim (Bool-cases (is_valid_entry r.status)) [
      | inl valid ↦
          let (time, v) =
            after_read-IsValid (export_filter r filter).time_intervals
              (record { reader_queue = r ∷ next; status = non_empty })
              (record r { bd_entry = none }) next (export_record r rec) refl e a.0.0 s.1 a.1 in
          rw valid (record {
            code = inr refl;
            nothing_left = λ x. absurd (omega arith);
            in_order = λ _. (rw time s.0, rw time v);
          })
      | inr stopped ↦ rw stopped (record {
        code = inr refl;
        nothing_left = λ x. absurd (omega arith);
        in_order = λ _. (rw e s.0, rw e (pop_head-IsValid r.record_time _ next refl s.1 a.1));
      })
    ]

get_next_at :
    (b : ℕ) (queue : List Reader) (status : MgrStatus) (rec : Record) (filter : FilterMgr)
    → IsConsistent status queue
    → IsSorted b queue
    → All IsReady queue
    → (next : Next) × (get_next_record (record { reader_queue = queue; status = status }) rec filter
        ≡ some next)
      × IsOrderedNext b (record { reader_queue = queue; status = status }) next
unfolding get_next_record
get_next_at b [] empty rec filter c s a = (
  record {
    code = 0;
    rec = rec;
    mgr = record { reader_queue = []; status = empty };
    filter = filter;
  },
  refl,
  record {
    code = inl refl;
    nothing_left = λ _. (refl, refl);
    in_order = λ e. absurd (omega arith);
  },
)
get_next_at b (r ∷ next) empty rec filter c s a = absurd c
get_next_at b [] non_empty rec filter c s a = absurd c
get_next_at b (r ∷ next) non_empty rec filter c s a = (
  next_at_head (record { reader_queue = r ∷ next; status = non_empty }) r next rec filter,
  refl,
  next_at_head-IsOrderedNext b r next rec filter s a,
)

-- On a valid manager get_next_record never reads through a null pointer. It returns 0, and changes
-- nothing, only when no reader is left; else it returns 1, the record is not earlier than those
-- delivered before, and the manager is valid from the record's time on.
pub get_next_record-IsOrderedNext :
    (b : ℕ) (mgr : ReaderMgr) (rec : Record) (filter : FilterMgr)
    → IsValid b mgr
    → (next : Next) × (get_next_record mgr rec filter ≡ some next) × IsOrderedNext b mgr next
get_next_record-IsOrderedNext b mgr rec filter v =
    get_next_at b mgr.reader_queue mgr.status rec filter v.consistent v.sorted v.ready

-- Up to n calls in a row: the records delivered, and whether a call returned 0, which ends them.
unfoldable pub run : ℕ → ReaderMgr → Record → FilterMgr → List Record × Bool
run zero mgr rec filter = ([], false)
run (suc n) mgr rec filter = elim (get_next_record mgr rec filter) [
  | none ↦ ([], false)
  | some next ↦
      let rest = run n next.mgr next.rec next.filter in
      if next.code == 1 then (next.rec ∷ rest.0, rest.1) else ([], true)
]

-- The times of the records never fall, from b on.
abbrev pub IsNonDecreasing : ℕ → List Record → Type 0
IsNonDecreasing b [] = Unit {0}
IsNonDecreasing b (rec ∷ recs) = (b ≤ rec.record_time) × IsNonDecreasing rec.record_time recs

-- The stream of a valid manager is in the order of time, however many records are asked for.
pub run-IsNonDecreasing :
    (n b : ℕ) (mgr : ReaderMgr) (rec : Record) (filter : FilterMgr)
    → IsValid b mgr
    → IsNonDecreasing b (run n mgr rec filter).0
unfolding run
run-IsNonDecreasing zero b mgr rec filter v = tt
run-IsNonDecreasing (suc n) b mgr rec filter v =
    let (next, returns, o) = get_next_record-IsOrderedNext b mgr rec filter v in
    rw (returns, run)
      (elim o.code [
        | inl done ↦ rw done tt
        | inr more ↦
            let (later, v') = o.in_order more in
            rw more
              (later, run-IsNonDecreasing n next.rec.record_time next.mgr next.rec next.filter v')
      ])

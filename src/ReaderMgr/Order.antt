-- ===== src/ReaderMgr/Order.antt =====
-- The order of the records: what the readers promise, and the queue sorted by the time of the next
-- record.
use bgpstream.Base.{
  ℕ, ◌+◌, ◌≤◌, ◌≡◌, refl, true, false, List, [], ◌∷◌, arith, inl, inr, Bool-cases, All,
}
use bgpstream.Filter.{Interval}
use bgpstream.Reader.{
  Reader, Event, entry, gap, corrupted, filter_bd_entry, read_loop, read_new_data, read_opened,
  wait_for_dump, thread_producer, is_valid_entry, is_end_of_dump,
}
use bgpstream.ReaderMgr.{
  ReaderMgr, MgrStatus, empty, non_empty, goes_before, insert_loop, sorted_insert, pop_head,
}

-- The entries that are left are in the order of time, from t on.
abbrev pub Ascends : ℕ → List Event → Type 0
Ascends t [] = Unit {0}
Ascends t (entry u ∷ events) = (t ≤ u) × Ascends u events
Ascends t (gap ∷ events) = Ascends t events
Ascends t (corrupted ∷ events) = Ascends t events

Ascends-weaken : (t u : ℕ) (events : List Event) → t ≤ u → Ascends u events → Ascends t events
Ascends-weaken t u [] p h = tt
Ascends-weaken t u (entry v ∷ events) p h = (omega arith, h.1)
Ascends-weaken t u (gap ∷ events) p h = Ascends-weaken t u events p h
Ascends-weaken t u (corrupted ∷ events) p h = Ascends-weaken t u events p h

-- Reading never goes back in time, and what is left then ascends from there.
read_loop-Ascends :
    (intervals : List Interval) (r : Reader) (t : ℕ) (events : List Event)
    → r.record_time ≡ t
    → Ascends t events
    → (t ≤ (read_loop intervals r events).record_time)
      × Ascends (read_loop intervals r events).record_time (read_loop intervals r events).events
unfolding read_loop
read_loop-Ascends intervals r t [] e h = (omega arith, tt)
read_loop-Ascends intervals r t (gap ∷ events) e h = read_loop-Ascends intervals r t events e h
read_loop-Ascends intervals r t (corrupted ∷ events) e h = (omega arith, rw e h)
read_loop-Ascends intervals r t (entry u ∷ events) e h =
    elim (Bool-cases (filter_bd_entry intervals u)) [
      | inl pass ↦ rw pass h
      | inr skip ↦ rw skip (
          read_loop-Ascends intervals (record r { successful_read = r.successful_read + 1 }) t
            events e (Ascends-weaken t u events h.0 h.1))
    ]

wait_for_dump-keeps :
    (r : Reader)
    → ((wait_for_dump r).record_time ≡ r.record_time) × ((wait_for_dump r).events ≡ r.events)
unfolding wait_for_dump thread_producer
wait_for_dump-keeps r = ground arith

-- A reader whose dump is in order of time.
abbrev pub IsOrdered : Reader → Type 0
IsOrdered r = Ascends r.record_time r.events

read_opened-IsOrdered :
    (intervals : List Interval) (r : Reader)
    → IsOrdered r
    → (r.record_time ≤ (read_opened intervals r).record_time) × IsOrdered (read_opened intervals r)
unfolding read_opened
read_opened-IsOrdered intervals r h = elim (Bool-cases (is_valid_entry r.status)) [
  | inl is_open ↦ rw is_open (
      read_loop-Ascends intervals (record r { skip_dump_check = true }) r.record_time r.events refl
        h)
  | inr failed ↦ rw failed (omega arith, h)
]

pub read_new_data-IsOrdered :
    (intervals : List Interval) (r : Reader)
    → IsOrdered r
    → (r.record_time ≤ (read_new_data intervals r).record_time)
      × IsOrdered (read_new_data intervals r)
unfolding read_new_data
read_new_data-IsOrdered intervals r h = elim (Bool-cases (is_valid_entry r.status)) [
  | inl valid ↦ rw valid (
      let (same, left) = wait_for_dump-keeps r in
      let ih = read_opened-IsOrdered intervals (wait_for_dump r) (rw (same, left) h) in
      (omega (arith, ih.0), ih.1))
  | inr stopped ↦ rw stopped (omega arith, h)
]

-- The queue is sorted by the time of the next record, from b on.
abbrev pub IsSorted : ℕ → List Reader → Type 0
IsSorted b [] = Unit {0}
IsSorted b (r ∷ next) = (b ≤ r.record_time) × IsSorted r.record_time next

pub IsSorted-weaken : (b c : ℕ) (l : List Reader) → c ≤ b → IsSorted b l → IsSorted c l
IsSorted-weaken b c [] p h = tt
IsSorted-weaken b c (r ∷ next) p h = (omega arith, h.1)

-- A reader goes before another only if its time is not later, and after it only if not earlier.
goes_before-le :
    (r q : Reader)
    → (goes_before r q ≡ true → r.record_time ≤ q.record_time)
      × (goes_before r q ≡ false → q.record_time ≤ r.record_time)
unfolding goes_before
goes_before-le r q = ground arith

pub insert_loop-IsSorted :
    (r : Reader) (b : ℕ) (l : List Reader)
    → b ≤ r.record_time
    → IsSorted b l
    → IsSorted b (insert_loop r l)
unfolding insert_loop
insert_loop-IsSorted r b [] p h = (p, tt)
insert_loop-IsSorted r b (q ∷ next) p h = elim (Bool-cases (goes_before r q)) [
  | inl before ↦ rw before (p, ((goes_before-le r q).0 before, h.1))
  | inr behind ↦
      rw behind (h.0, insert_loop-IsSorted r q.record_time next ((goes_before-le r q).1 behind) h.1)
]

pub insert_loop-All {ℓ} :
    (P : Reader → Type ℓ) (r : Reader) (l : List Reader) → P r → All P l → All P (insert_loop r l)
unfolding insert_loop
insert_loop-All P r [] p h = (p, tt)
insert_loop-All P r (q ∷ next) p h = elim (Bool-cases (goes_before r q)) [
  | inl before ↦ rw before (p, h)
  | inr behind ↦ rw behind (h.0, insert_loop-All P r next p h.1)
]

-- The status of the manager tells whether its queue is empty.
abbrev pub IsConsistent : MgrStatus → List Reader → Type 0
IsConsistent empty [] = Unit {0}
IsConsistent empty (_ ∷ _) = ⊥
IsConsistent non_empty [] = ⊥
IsConsistent non_empty (_ ∷ _) = Unit {0}

-- A reader in the queue is ordered, and not one that has delivered all it has.
abbrev pub IsReady : Reader → Type 0
IsReady r = IsOrdered r × (is_end_of_dump r.status ≡ false)

-- The invariant of the manager: it is consistent, no record before b is to come, and the readers are
-- sorted and ready.
pub record IsValid (b : ℕ) (mgr : ReaderMgr) : Type 0 where
  pub consistent : IsConsistent mgr.status mgr.reader_queue
  pub sorted : IsSorted b mgr.reader_queue
  pub ready : All IsReady mgr.reader_queue

pub insert_loop-IsConsistent :
    (r : Reader) (l : List Reader) → IsConsistent non_empty (insert_loop r l)
unfolding insert_loop
insert_loop-IsConsistent r [] = tt
insert_loop-IsConsistent r (q ∷ next) = elim (Bool-cases (goes_before r q)) [
  | inl before ↦ rw before tt
  | inr behind ↦ rw behind tt
]

sorted_insert_at :
    (b : ℕ) (queue : List Reader) (status : MgrStatus) (r : Reader)
    → IsConsistent status queue
    → IsSorted b queue
    → All IsReady queue
    → b ≤ r.record_time
    → IsReady r
    → IsValid b (sorted_insert (record { reader_queue = queue; status = status }) r)
unfolding sorted_insert
sorted_insert_at b queue empty r c s a p h = record {
  consistent = tt;
  sorted = (p, tt);
  ready = (h, tt);
}
sorted_insert_at b queue non_empty r c s a p h = record {
  consistent = insert_loop-IsConsistent r queue;
  sorted = insert_loop-IsSorted r b queue p s;
  ready = insert_loop-All IsReady r queue h a;
}

-- An insertion keeps the invariant.
pub sorted_insert-IsValid :
    (b : ℕ) (mgr : ReaderMgr) (r : Reader)
    → IsValid b mgr
    → b ≤ r.record_time
    → IsReady r
    → IsValid b (sorted_insert mgr r)
sorted_insert-IsValid b mgr r v p h =
    sorted_insert_at b mgr.reader_queue mgr.status r v.consistent v.sorted v.ready p h

-- The queue without its head, in a manager that was not empty.
pub pop_head-IsValid :
    (b : ℕ) (mgr : ReaderMgr) (next : List Reader)
    → mgr.status ≡ non_empty
    → IsSorted b next
    → All IsReady next
    → IsValid b (pop_head mgr next)
unfolding pop_head
pop_head-IsValid b mgr [] st s a = record { consistent = tt; sorted = tt; ready = tt }
pop_head-IsValid b mgr (r ∷ next) st s a = record { consistent = rw st tt; sorted = s; ready = a }

-- ===== src/ReaderMgr/Complete.antt =====
-- Nothing is lost and nothing is read twice: the calls of get_next_record deliver every entry of the
-- dumps that passes the filter, and they end.
use bgpstream.Base.{
  ℕ, ◌+◌, ◌≤◌, ◌<◌, ◌≡◌, refl, Bool, true, false, List, [], ◌∷◌, arith, inl, inr, if◌then◌else◌,
  Bool-cases, All, ◌==◌, length,
}
use bgpstream.Filter.{Interval}
use bgpstream.Reader.{
  Status, Reader, Event, entry, gap, corrupted, eof_status, read_loop, read_opened, wait_for_dump,
  read_new_data, filter_bd_entry, is_valid_entry, is_end_of_dump,
}
use bgpstream.ReaderMgr.{
  ReaderMgr, non_empty, goes_before, insert_loop, sorted_insert, pop_head, Record, after_read,
}
use bgpstream.ReaderMgr.Order.{insert_loop-All}

-- The times of the entries that pass the filter, up to where the dump is corrupted or ends.
unfoldable pub entries_left : List Interval → List Event → List ℕ
entries_left intervals [] = []
entries_left intervals (entry t ∷ events) =
    if filter_bd_entry intervals t
    then t ∷ entries_left intervals events
    else entries_left intervals events
entries_left intervals (gap ∷ events) = entries_left intervals events
entries_left intervals (corrupted ∷ events) = []

-- How many entries of a list pass a test of the times.
unfoldable pub count : (ℕ → Bool) → List ℕ → ℕ
count test [] = 0
count test (t ∷ ts) = (if test t then 1 else 0) + count test ts

-- What a reader in the queue is still to deliver: its current entry and those left.
unfoldable pub pending : (ℕ → Bool) → List Interval → Reader → ℕ
pending test intervals r =
    if is_valid_entry r.status
    then (if test r.record_time then 1 else 0) + count test (entries_left intervals r.events)
    else 0

unfoldable pub pending_all : (ℕ → Bool) → List Interval → List Reader → ℕ
pending_all test intervals [] = 0
pending_all test intervals (r ∷ next) = pending test intervals r + pending_all test intervals next

-- The calls that a reader can still take.
unfoldable pub calls_left : Reader → ℕ
calls_left r = if is_valid_entry r.status then 2 + length r.events else 1

unfoldable pub calls_left_all : List Reader → ℕ
calls_left_all [] = 0
calls_left_all (r ∷ next) = calls_left r + calls_left_all next

-- The dump of a reader with a valid entry is open.
abbrev pub IsOpen : Reader → Type 0
IsOpen r = is_valid_entry r.status ≡ true → r.skip_dump_check ≡ true

pub read_loop-pending :
    (test : ℕ → Bool) (intervals : List Interval) (r : Reader) (events : List Event)
    → r.skip_dump_check ≡ true
    → (pending test intervals (read_loop intervals r events)
        ≡ count test (entries_left intervals events))
      × (calls_left (read_loop intervals r events) < 2 + length events)
      × ((read_loop intervals r events).skip_dump_check ≡ true)
unfolding read_loop pending entries_left count calls_left is_valid_entry eof_status
read_loop-pending test intervals r [] o = ground arith
read_loop-pending test intervals r (gap ∷ events) o =
    let (p, c, s) = read_loop-pending test intervals r events o in (p, omega (arith, c), s)
read_loop-pending test intervals r (corrupted ∷ events) o = (refl, omega arith, o)
read_loop-pending test intervals r (entry t ∷ events) o =
    elim (Bool-cases (filter_bd_entry intervals t)) [
      | inl pass ↦ rw pass (refl, omega arith, o)
      | inr skip ↦
          let (p, c, s) =
            read_loop-pending test intervals (record r { successful_read = r.successful_read + 1 })
              events o in
          rw skip (p, omega (arith, c), s)
    ]

read_new_data-pending :
    (test : ℕ → Bool) (intervals : List Interval) (r : Reader)
    → is_valid_entry r.status ≡ true
    → r.skip_dump_check ≡ true
    → (pending test intervals (read_new_data intervals r)
        ≡ count test (entries_left intervals r.events))
      × (calls_left (read_new_data intervals r) < 2 + length r.events)
      × ((read_new_data intervals r).skip_dump_check ≡ true)
unfolding read_new_data read_opened wait_for_dump
read_new_data-pending test intervals r v o =
    rw (v, o, v)
      (read_loop-pending test intervals (record r { skip_dump_check = true }) r.events refl)

not_valid_of_ended : (s : Status) → is_end_of_dump s ≡ true → is_valid_entry s ≡ false
unfolding is_end_of_dump is_valid_entry
not_valid_of_ended s e = ground arith

pub insert_loop-pending_all :
    (test : ℕ → Bool) (intervals : List Interval) (r : Reader) (l : List Reader)
    → pending_all test intervals (insert_loop r l)
      ≡ pending test intervals r + pending_all test intervals l
unfolding pending_all insert_loop
insert_loop-pending_all test intervals r [] = refl
insert_loop-pending_all test intervals r (q ∷ next) = elim (Bool-cases (goes_before r q)) [
  | inl before ↦ rw before
  | inr behind ↦ rw behind (omega (arith, insert_loop-pending_all test intervals r next))
]

insert_loop-calls_left_all :
    (r : Reader) (l : List Reader)
    → calls_left_all (insert_loop r l) ≡ calls_left r + calls_left_all l
unfolding calls_left_all insert_loop
insert_loop-calls_left_all r [] = refl
insert_loop-calls_left_all r (q ∷ next) = elim (Bool-cases (goes_before r q)) [
  | inl before ↦ rw before
  | inr behind ↦ rw behind (omega (arith, insert_loop-calls_left_all r next))
]

pub queue-pop_head :
    (mgr : ReaderMgr) (next : List Reader) → (pop_head mgr next).reader_queue ≡ next
unfolding pop_head
queue-pop_head mgr [] = refl
queue-pop_head mgr (r ∷ next) = refl

queue-sorted_insert-pop_head :
    (mgr : ReaderMgr) (next : List Reader) (r : Reader)
    → mgr.status ≡ non_empty
    → (sorted_insert (pop_head mgr next) r).reader_queue ≡ insert_loop r next
unfolding sorted_insert pop_head insert_loop
queue-sorted_insert-pop_head mgr [] r e = refl
queue-sorted_insert-pop_head mgr (q ∷ next) r e = rw (e, sorted_insert)

-- A queue with all that it holds: what it is still to deliver, and an upper bound of the calls.
pub record Holds (test : ℕ → Bool) (intervals : List Interval) (n c : ℕ) (l : List Reader)
    : Type 0 where
  pub all_pending : pending_all test intervals l ≡ n
  pub calls : calls_left_all l ≤ c
  pub open_dumps : All IsOpen l

insert_loop-Holds :
    (test : ℕ → Bool) (intervals : List Interval) (r : Reader) (l : List Reader) (n c k m d : ℕ)
    → pending test intervals r ≡ n
    → calls_left r ≤ c
    → IsOpen r
    → Holds test intervals k m l
    → c + m ≤ d
    → Holds test intervals (n + k) d (insert_loop r l)
insert_loop-Holds test intervals r l n c k m d p q o h e = record {
  all_pending = omega (arith, insert_loop-pending_all test intervals r l, h.all_pending);
  calls = omega (arith, insert_loop-calls_left_all r l, h.calls);
  open_dumps = insert_loop-All IsOpen r l o h.open_dumps;
}

cons-Holds :
    (test : ℕ → Bool) (intervals : List Interval) (r : Reader) (l : List Reader) (n c k m d : ℕ)
    → pending test intervals r ≡ n
    → calls_left r ≤ c
    → IsOpen r
    → Holds test intervals k m l
    → c + m ≤ d
    → Holds test intervals (n + k) d (r ∷ l)
unfolding pending_all calls_left_all
cons-Holds test intervals r l n c k m d p q o h e = record {
  all_pending = omega (arith, h.all_pending);
  calls = omega (arith, h.calls);
  open_dumps = (o, h.open_dumps);
}

pub after_read-Holds :
    (test : ℕ → Bool) (intervals : List Interval) (mgr : ReaderMgr) (r : Reader)
    (next : List Reader) (rec : Record) (k m : ℕ)
    → mgr.status ≡ non_empty
    → is_valid_entry r.status ≡ true
    → r.skip_dump_check ≡ true
    → Holds test intervals k m next
    → Holds test intervals
        (count test (entries_left intervals r.events) + k)
        (1 + length r.events + m)
        (after_read intervals mgr r next rec).1.reader_queue
unfolding after_read
after_read-Holds test intervals mgr r next rec k m st v o h =
    let (p, c, s) = read_new_data-pending test intervals r v o in
    elim (Bool-cases (is_end_of_dump (read_new_data intervals r).status)) [
      | inl ended ↦
          let none_left = pending_ended test intervals (read_new_data intervals r) ended in
          rw (ended, queue-pop_head mgr next)
            (record {
              all_pending = omega (arith, p, none_left, h.all_pending);
              calls = omega (arith, h.calls);
              open_dumps = h.open_dumps;
            })
      | inr more ↦
          rw more (elim (Bool-cases ((read_new_data intervals r).record_time == rec.record_time)) [
            | inl stays ↦ rw stays (
                cons-Holds test intervals (read_new_data intervals r) next _ (1 + length r.events) k
                  m _ p (omega (arith, c)) (λ _. s) h (omega arith))
            | inr moves ↦
                rw (moves, queue-sorted_insert-pop_head mgr next (read_new_data intervals r) st)
                  (insert_loop-Holds test intervals (read_new_data intervals r) next _
                    (1 + length r.events) k m _ p (omega (arith, c)) (λ _. s) h (omega arith))
          ])
    ]
  where
    pending_ended :
        (test : ℕ → Bool) (intervals : List Interval) (q : Reader)
        → is_end_of_dump q.status ≡ true
        → pending test intervals q ≡ 0
    pending_ended test intervals q e = unfold pending in rw (not_valid_of_ended q.status e)

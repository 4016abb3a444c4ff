-- ===== src/ReaderMgr/Consistent.antt =====
-- The status of the reader manager keeps telling whether its queue is empty.
use bgpstream.Base.{◌≡◌, refl, false, some, List, [], ◌∷◌, inl, inr, Bool-cases}
use bgpstream.Filter.{Interval, FilterMgr}
use bgpstream.Input.{Input}
use bgpstream.Reader.{Reader, read_new_data, is_valid_entry}
use bgpstream.ReaderMgr.{
  Record, ReaderMgr, MgrStatus, empty, non_empty, is_empty, Dumps, mgr_add, sorted_insert,
  insert_readers, create_readers, Next, next_at_head, get_next_record,
}
use bgpstream.ReaderMgr.Order.{IsConsistent, insert_loop-IsConsistent}

insert_stays :
    (status : MgrStatus) (queue : List Reader) (r : Reader)
    → IsConsistent status queue
    → let mgr = sorted_insert (record { reader_queue = queue; status = status }) r in
      IsConsistent mgr.status mgr.reader_queue
unfolding sorted_insert
insert_stays empty queue r c = tt
insert_stays non_empty queue r c = insert_loop-IsConsistent r queue

insert_readers_stay :
    (intervals : List Interval) (readers : List Reader) (mgr : ReaderMgr)
    → IsConsistent mgr.status mgr.reader_queue
    → let mgr' = insert_readers intervals readers mgr in IsConsistent mgr'.status mgr'.reader_queue
unfolding insert_readers
insert_readers_stay intervals [] mgr c = c
insert_readers_stay intervals (r ∷ next) mgr c =
    insert_readers_stay intervals next (sorted_insert mgr (read_new_data intervals r))
      (insert_stays mgr.status mgr.reader_queue (read_new_data intervals r) c)

pub mgr_add-IsConsistent :
    (dumps : Dumps) (mgr : ReaderMgr) (inputs : List Input) (filter : FilterMgr)
    → IsConsistent mgr.status mgr.reader_queue
    → let mgr' = (mgr_add dumps mgr inputs filter).0 in IsConsistent mgr'.status mgr'.reader_queue
unfolding mgr_add
mgr_add-IsConsistent dumps mgr inputs filter c =
    insert_readers_stay (create_readers dumps inputs filter).1.time_intervals
      (create_readers dumps inputs filter).0 mgr c

next_at :
    (status : MgrStatus) (queue : List Reader) (rec : Record) (filter : FilterMgr)
    → IsConsistent status queue
    → let mgr : ReaderMgr = record { reader_queue = queue; status = status } in
      is_empty mgr ≡ false
      → (next : Next) × (get_next_record mgr rec filter ≡ some next) × (next.code ≡ 1)
unfolding get_next_record is_empty next_at_head
next_at empty queue rec filter c e = absurd (cc e)
next_at non_empty [] rec filter c e = absurd c
next_at non_empty (r ∷ next) rec filter c e = (
  _,
  refl,
  elim (Bool-cases (is_valid_entry r.status)) [
    | inl valid ↦ rw valid refl
    | inr other ↦ rw other refl
  ],
)

-- A manager that is not empty returns a record.
pub get_next_record-some :
    (mgr : ReaderMgr) (rec : Record) (filter : FilterMgr)
    → IsConsistent mgr.status mgr.reader_queue
    → is_empty mgr ≡ false
    → (next : Next) × (get_next_record mgr rec filter ≡ some next) × (next.code ≡ 1)
get_next_record-some mgr rec filter = next_at mgr.status mgr.reader_queue rec filter

-- ===== src/ReaderMgr.antt =====
-- lib/bgpstream_reader.c: the reader manager, which keeps the readers in a queue ordered by the time
-- of the record that each would deliver next.
pub mod Complete
pub mod Order
pub mod Consistent
pub mod Stream
pub mod Delivery
pub mod Fill
pub mod RibPeriod
mod Examples
use Prim.Native.String.{String}
use bgpstream.Base.Text.{str_eq, dotted}
use bgpstream.Base.{
  ℕ, ◌+◌, ◌-◌, ◌%◌, ◌^◌, Bool, true, false, ◌&&◌, ◌||◌, not, Option, none, some, List, [], ◌∷◌, ltb,
  leb, ◌==◌, if◌then◌else◌,
}
use bgpstream.Filter.{Interval, FilterMgr}
use bgpstream.Input.{Input}
use bgpstream.Reader.{
  Status, Reader, Event, is_valid_entry, is_end_of_dump, read_new_data, reader_create,
}

pub data DumpType : Type 0 where
  update rib : DumpType

pub data DumpPos : Type 0 where
  dump_start dump_middle dump_end : DumpPos

pub data RecordStatus : Type 0 where
  valid_record filtered_source empty_source corrupted_source corrupted_record : RecordStatus

-- The fields of bgpstream_record_t that a reader fills in.
pub record Record : Type 0 where
  pub bd_entry : Option ℕ
  pub dump_project : String
  pub dump_collector : String
  pub dump_type : DumpType
  pub dump_time : ℕ
  pub record_time : ℕ
  pub dump_pos : DumpPos
  pub status : RecordStatus

-- The switch of export_record on the status.
pub record_status : Status → RecordStatus
record_status Status.valid_entry = valid_record
record_status Status.filtered_dump = filtered_source
record_status Status.empty_dump = empty_source
record_status Status.cant_open_dump = corrupted_source
record_status Status.corrupted_dump = corrupted_record
record_status Status.end_of_dump = empty_source

pub is_corrupted : RecordStatus → Bool
is_corrupted corrupted_source = true
is_corrupted corrupted_record = true
is_corrupted _ = false

-- last_processed_ts[key] = time.
pub note_time : FilterMgr → String → ℕ → FilterMgr
note_time mgr key time = record mgr {
  last_processed_ts = λ k. if str_eq k key then some time else mgr.last_processed_ts k;
}

-- The record that export_record writes. A reader at its end of dump leaves the record as it was.
pub export_record : Reader → Record → Record
export_record r rec = if is_end_of_dump r.status then rec else record {
  bd_entry = r.bd_entry;
  dump_project = r.dump_project;
  dump_collector = r.dump_collector;
  dump_type = if str_eq r.dump_type "ribs" then rib else update;
  dump_time = r.dump_time;
  record_time = r.record_time;
  dump_pos = if r.valid_read == 1 && r.successful_read == 1 then dump_start else dump_middle;
  status = record_status r.status;
}

-- The end of export_record: after corruption the rib period of the collector begins anew.
pub export_filter : Reader → FilterMgr → FilterMgr
export_filter r mgr =
    if is_end_of_dump r.status
    then mgr
    else if not (mgr.rib_period == 0) && is_corrupted (record_status r.status)
    then note_time mgr (dotted r.dump_project r.dump_collector) 0
    else mgr

pub data MgrStatus : Type 0 where
  empty non_empty : MgrStatus

pub record ReaderMgr : Type 0 where
  pub reader_queue : List Reader
  pub status : MgrStatus

abbrev pub create : ReaderMgr
create = record { reader_queue = []; status = empty }

pub is_empty : ReaderMgr → Bool
is_empty mgr = elim mgr.status [ empty ↦ true | non_empty ↦ false ]

-- The tests of sorted_insert at a queued reader: true where the new one goes before it.
pub goes_before : Reader → Reader → Bool
goes_before r iterator =
    if r.record_time == iterator.record_time
    then (if str_eq iterator.dump_type r.dump_type
        then false
        else if str_eq iterator.dump_type "ribs" && str_eq r.dump_type "updates"
        then false
        else str_eq iterator.dump_type "updates" && str_eq r.dump_type "ribs")
    else ltb r.record_time iterator.record_time

-- The loop of sorted_insert over a queue that is not empty.
pub insert_loop : Reader → List Reader → List Reader
insert_loop r [] = r ∷ []
insert_loop r (iterator ∷ next) =
    if goes_before r iterator then r ∷ iterator ∷ next else iterator ∷ insert_loop r next

pub sorted_insert : ReaderMgr → Reader → ReaderMgr
sorted_insert mgr r = elim mgr.status [
  | empty ↦ record { reader_queue = r ∷ []; status = non_empty }
  | non_empty ↦ record mgr { reader_queue = insert_loop r mgr.reader_queue }
]

-- pop_head where `next` is the queue behind the head.
pub pop_head : ReaderMgr → List Reader → ReaderMgr
pop_head mgr [] = record { reader_queue = []; status = empty }
pop_head mgr (r ∷ next) = record mgr { reader_queue = r ∷ next }

-- bgpstream_reader_period_check: the result, and the map of times. The sum is a uint32_t.
pub period_check : Input → FilterMgr → Bool × FilterMgr
period_check input mgr =
    let key = dotted input.fileproject input.filecollector in
    if not (mgr.rib_period == 0) && str_eq input.filetype "ribs"
    then elim (mgr.last_processed_ts key) [
      | none ↦ (true, note_time mgr key input.epoch_filetime)
      | some last ↦
          if input.epoch_filetime == last
          then (true, mgr)
          else if ltb input.epoch_filetime ((last + mgr.rib_period) % 2 ^ 32)
          then (false, mgr)
          else (true, note_time mgr key input.epoch_filetime)
    ]
    else (true, mgr)

-- The environment of the dumps: how the tries to open an input turn out, and what it then holds.
pub record Dumps : Type 0 where
  pub attempts : Input → List Bool
  pub events : Input → List Event

-- The first loop of bgpstream_reader_mgr_add: the readers of the inputs that pass the period check.
pub create_readers : Dumps → List Input → FilterMgr → List Reader × FilterMgr
create_readers dumps [] mgr = ([], mgr)
create_readers dumps (input ∷ next) mgr =
    let (pass, mgr') = period_check input mgr in
    let (readers, mgr'') = create_readers dumps next mgr' in
    (
      (if pass
          then reader_create input (dumps.attempts input) (dumps.events input) ∷ readers
          else readers),
      mgr'',
    )

-- The second loop: the first read of each, and its place in the queue.
pub insert_readers : List Interval → List Reader → ReaderMgr → ReaderMgr
insert_readers intervals [] mgr = mgr
insert_readers intervals (r ∷ next) mgr =
    insert_readers intervals next (sorted_insert mgr (read_new_data intervals r))

pub mgr_add : Dumps → ReaderMgr → List Input → FilterMgr → ReaderMgr × FilterMgr
mgr_add dumps mgr inputs filter =
    let (readers, filter') = create_readers dumps inputs filter in
    (insert_readers filter'.time_intervals readers mgr, filter')

-- What get_next_record leaves: its return value, the record, and both managers.
pub record Next : Type 0 where
  pub code : ℕ
  pub rec : Record
  pub mgr : ReaderMgr
  pub filter : FilterMgr

-- get_next_record behind its export, where the head had a valid entry. `r` is the head, disconnected
-- from its entry, `next` the queue behind it, and `rec` the exported record.
pub after_read : List Interval → ReaderMgr → Reader → List Reader → Record → Record × ReaderMgr
after_read intervals mgr r next rec =
    let read = read_new_data intervals r in
    let read_diff = r.successful_read - r.valid_read in
    if is_end_of_dump read.status
    then (
      (if read.successful_read - read.valid_read == read_diff
          then record rec { dump_pos = dump_end }
          else rec),
      pop_head mgr next,
    )
    else if read.record_time == rec.record_time
    then (rec, record mgr { reader_queue = read ∷ next })
    else (rec, sorted_insert (pop_head mgr next) read)

-- get_next_record at the head `r` of the queue, with `next` behind it.
unfoldable pub next_at_head : ReaderMgr → Reader → List Reader → Record → FilterMgr → Next
next_at_head mgr r next rec filter =
    let exported = export_record r rec in
    let filter' = export_filter r filter in
    let (rec', mgr') =
      after_read filter'.time_intervals mgr (record r { bd_entry = none }) next exported in
    if is_valid_entry r.status
    then record { code = 1; rec = rec'; mgr = mgr'; filter = filter' }
    else record {
      code = 1;
      rec = record exported { dump_pos = dump_end };
      mgr = pop_head mgr next;
      filter = filter';
    }

-- bgpstream_reader_mgr_get_next_record; `none` is a read through the null pointer of an empty queue.
unfoldable pub get_next_record : ReaderMgr → Record → FilterMgr → Option Next
get_next_record mgr rec filter = elim mgr.status [
  | empty ↦ some (record { code = 0; rec = rec; mgr = mgr; filter = filter })
  | non_empty ↦ elim mgr.reader_queue [
    | [] ↦ none
    | r ∷ next ↦ some (next_at_head mgr r next rec filter)
  ]
]

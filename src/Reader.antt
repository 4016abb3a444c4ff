-- ===== src/Reader.antt =====
-- lib/bgpstream_reader.{h,c}: the queue of readers, one for each dump file that is open, which merges
-- their records into one stream ordered by time.
pub mod Opening
mod Examples
use Prim.Native.String.{String}
use bgpstream.Base.{
  ℕ, zero, suc, ◌+◌, ◌*◌, Bool, true, false, ◌&&◌, ◌||◌, Option, none, some, List, [], ◌∷◌, leb,
  ◌==◌, if◌then◌else◌,
}
use bgpstream.Filter.{Interval, forever}
use bgpstream.Input.{Input}

-- What one call of bgpdump_read_next finds in an open dump, a file of the bundled libbgpdump: an entry
-- with its time, no entry though the file goes on, or a corrupted one. Behind the last event the file
-- ends: no entry, and `eof` is set.
pub data Event : Type 0 where
  entry : ℕ → Event
  gap corrupted : Event

pub data Status : Type 0 where
  valid_entry filtered_dump empty_dump cant_open_dump corrupted_dump end_of_dump : Status

-- bgpstream_reader_t. `attempts` are the results of the successive calls of bgpdump_open_dump, true
-- where one opens the dump, and `events` is what is left to read. `bd_entry` is the time of the entry.
pub record Reader : Type 0 where
  pub dump_name : String
  pub dump_project : String
  pub dump_collector : String
  pub dump_type : String
  pub dump_time : ℕ
  pub record_time : ℕ
  pub bd_entry : Option ℕ
  pub successful_read : ℕ
  pub valid_read : ℕ
  pub status : Status
  pub skip_dump_check : Bool
  pub attempts : List Bool
  pub events : List Event

abbrev pub dump_open_max_retries : ℕ
dump_open_max_retries = 5

abbrev pub dump_open_min_retry_wait : ℕ
dump_open_min_retry_wait = 10

-- The loop of thread_producer: whether the dump is open in the end, and the seconds slept. `rounds` is
-- the number of tries left, DUMP_OPEN_MAX_RETRIES at first; a try past the list fails.
unfoldable pub open_loop : ℕ → List Bool → ℕ → ℕ → Bool × ℕ
open_loop zero attempts delay slept = (false, slept)
open_loop (suc rounds) [] delay slept =
    let waited = if rounds == 0 then slept else slept + delay in
    open_loop rounds [] (delay * 2) waited
open_loop (suc rounds) (true ∷ attempts) delay slept = (true, slept)
open_loop (suc rounds) (false ∷ attempts) delay slept =
    let waited = if rounds == 0 then slept else slept + delay in
    open_loop rounds attempts (delay * 2) waited

-- The state that get_next_entry finds once `dump_ready` is set.
unfoldable pub thread_producer : Reader → Reader
thread_producer r =
    if (open_loop dump_open_max_retries r.attempts dump_open_min_retry_wait 0).0
    then r
    else record r { status = Status.cant_open_dump }

unfoldable pub filter_loop : List Interval → ℕ → Bool
filter_loop [] time = false
filter_loop (tif ∷ next) time =
    if leb tif.begin_time time && (tif.end_time == forever || leb time tif.end_time)
    then true
    else filter_loop next time

-- bgpstream_reader_filter_bd_entry on an entry that is there.
unfoldable pub filter_bd_entry : List Interval → ℕ → Bool
filter_bd_entry [] time = true
filter_bd_entry (tif ∷ next) time = filter_loop (tif ∷ next) time

-- The status at the end of a file.
unfoldable pub eof_status : ℕ → ℕ → Status
eof_status successful_read valid_read =
    if successful_read == 0
    then Status.empty_dump
    else if valid_read == 0
    then Status.filtered_dump
    else Status.end_of_dump

-- The loop of read_new_data over what the dump still holds, the dump being open.
unfoldable pub read_loop : List Interval → Reader → List Event → Reader
read_loop intervals r [] = record r {
  bd_entry = none;
  status = eof_status r.successful_read r.valid_read;
  events = [];
}
read_loop intervals r (entry time ∷ events) =
    let read = record r { successful_read = r.successful_read + 1 } in
    let skipped = read_loop intervals read events in
    if filter_bd_entry intervals time
    then record read {
      bd_entry = some time;
      valid_read = r.valid_read + 1;
      status = Status.valid_entry;
      record_time = time;
      events = events;
    }
    else skipped
read_loop intervals r (gap ∷ events) = read_loop intervals r events
read_loop intervals r (corrupted ∷ events) = record r {
  bd_entry = none;
  status = Status.corrupted_dump;
  events = events;
}

unfoldable pub is_valid_entry : Status → Bool
is_valid_entry Status.valid_entry = true
is_valid_entry _ = false

unfoldable pub is_end_of_dump : Status → Bool
is_end_of_dump Status.end_of_dump = true
is_end_of_dump _ = false

-- The start of get_next_entry: the first time, the reader waits for the producer.
unfoldable pub wait_for_dump : Reader → Reader
wait_for_dump r = if r.skip_dump_check then r else thread_producer r

-- The loop of read_new_data behind the wait. A dump that cannot be opened ends it at once.
unfoldable pub read_opened : List Interval → Reader → Reader
read_opened intervals r =
    if is_valid_entry r.status
    then read_loop intervals (record r { skip_dump_check = true }) r.events
    else record r { bd_entry = none }

-- bgpstream_reader_read_new_data.
unfoldable pub read_new_data : List Interval → Reader → Reader
read_new_data intervals r =
    if is_valid_entry r.status then read_opened intervals (wait_for_dump r) else r

-- bgpstream_reader_create; the parts of the environment are the last two arguments.
unfoldable pub reader_create : Input → List Bool → List Event → Reader
reader_create input attempts events = record {
  dump_name = input.filename;
  dump_project = input.fileproject;
  dump_collector = input.filecollector;
  dump_type = input.filetype;
  dump_time = input.epoch_filetime;
  record_time = input.epoch_filetime;
  bd_entry = none;
  successful_read = 0;
  valid_read = 0;
  status = Status.valid_entry;
  skip_dump_check = false;
  attempts = attempts;
  events = events;
}

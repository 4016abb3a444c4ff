-- ===== src/Stream/Examples.antt =====
-- A stream with one interval, started and stopped.
use bgpstream.Base.{◌≡◌, refl, true, false, All, ◌∷◌, [], some, none, inr, arith}
use bgpstream.Filter
use bgpstream.Input
use bgpstream.Input.{Input}
use bgpstream.Input.Push.{IsConsistent}
use bgpstream.Input.Batch.{IsTimed}
use bgpstream.ReaderMgr
use bgpstream.ReaderMgr.{Record, Dumps, update, dump_start, empty_source}
use bgpstream.DataSource.{pushed}
use bgpstream.DataSource.Updates.{IsTimely, weight}
use bgpstream.Stream.Next.{Session, Returned, get_next_record}
use bgpstream.Stream.Total.{IsGood, Ends, get_next_record-Ends}
use bgpstream.Filter.{valid_intervals, validate, interval_filter_add}
use bgpstream.Stream.{Bgpstream, on, create, add_interval_filter, start, stop, is_allocated, is_on}
use bgpstream.Stream.Status.{
  Steps, none_made, made, interval_added, started, stopped, IsInterval, started-IsInterval,
  IsFrozen, Steps-IsFrozen,
}

runs : Unit {0}
unfolding add_interval_filter start is_allocated valid_intervals validate interval_filter_add stop
    is_on
runs = tt

abbrev running : Bgpstream
running = (start true (add_interval_filter create 10 20)).0

is_running : is_allocated running.status ≡ false
unfolding runs
is_running = refl

two_calls : Steps create running
two_calls = made (made none_made (interval_added create 10 20)) (started true _)

started-IsInterval_example : All IsInterval running.filter_mgr.time_intervals
started-IsInterval_example = started-IsInterval running two_calls is_running

Steps-IsFrozen_example : IsFrozen running (add_interval_filter (stop running) 5 6)
Steps-IsFrozen_example =
    Steps-IsFrozen running (add_interval_filter (stop running) 5 6)
      (made (made none_made (stopped running)) (interval_added (stop running) 5 6)) is_running

-- A stream without live mode, whose data source has one file and then no more.
abbrev updates_file : Input
updates_file = record {
  filename = "updates";
  fileproject = "ris";
  filecollector = "rrc00";
  filetype = "updates";
  epoch_filetime = 100;
  time_span = 300;
}

abbrev one_file : Session
one_file = record {
  status = on;
  blocking = false;
  answers = pushed (updates_file ∷ []) ∷ [];
  input_mgr = Input.create;
  reader_mgr = ReaderMgr.create;
  filter_mgr = Filter.create;
}

updates_file-IsTimed : IsTimed updates_file
updates_file-IsTimed = record { kind = inr refl; spans = omega arith; fits = omega arith }

one_file-IsGood : IsGood one_file
unfolding IsTimely
one_file-IsGood = record {
  fine = record {
    valid = record { consistent = unfold IsConsistent in tt; ordered = tt };
    timed = tt;
  };
  later = ((updates_file-IsTimed, tt), tt);
  readers = tt;
  offline = refl;
}

abbrev dumps : Dumps
dumps = record { attempts = λ i. true ∷ []; events = λ i. [] }

abbrev no_record : Record
no_record = record {
  bd_entry = none;
  dump_project = "";
  dump_collector = "";
  dump_type = update;
  dump_time = 0;
  record_time = 0;
  dump_pos = dump_start;
  status = empty_source;
}

get_next_record-Ends_example :
    (r : Returned) × (get_next_record 9 dumps one_file no_record ≡ some r) × Ends one_file r
unfolding weight is_on
get_next_record-Ends_example =
    get_next_record-Ends 9 dumps one_file no_record one_file-IsGood refl (omega arith)

-- ===== src/ReaderMgr/Examples.antt =====
-- The merge of two small dumps: a RIB and an updates file of one collector.
use bgpstream.Base.{
  ℕ, ◌≡◌, ◌<◌, refl, Bool, true, List, [], ◌∷◌, arith, All, none, some, if◌then◌else◌,
}
use bgpstream.Base.Text.{str_eq}
use bgpstream.Filter
use bgpstream.Filter.{FilterMgr}
use bgpstream.Input.{Input}
use bgpstream.Reader.{entry, gap, Reader, Status, is_end_of_dump, is_valid_entry}
use bgpstream.ReaderMgr
use bgpstream.ReaderMgr.{
  Dumps, non_empty, Record, RecordStatus, DumpType, DumpPos, mgr_add, create_readers, Next,
  get_next_record, sorted_insert,
}
use bgpstream.ReaderMgr.RibPeriod.{IsSpaced, passed_times, period_check-IsSpaced}
use bgpstream.ReaderMgr.Fill.{merged_stream, dumps_hold}
use bgpstream.ReaderMgr.Stream.{run, IsNonDecreasing, get_next_record-IsOrderedNext, IsOrderedNext}
use bgpstream.ReaderMgr.Delivery.{run_complete, valid_times}
use bgpstream.ReaderMgr.Complete.{count, calls_left_all, calls_left, pending_all, IsOpen}
use bgpstream.ReaderMgr.Order.{IsValid}

abbrev rib_file : Input
rib_file = record {
  filename = "rib.0";
  fileproject = "ris";
  filecollector = "rrc00";
  filetype = "ribs";
  epoch_filetime = 100;
  time_span = 60;
}

abbrev updates_file : Input
updates_file = record {
  filename = "updates.0";
  fileproject = "ris";
  filecollector = "rrc00";
  filetype = "updates";
  epoch_filetime = 100;
  time_span = 60;
}

-- The RIB holds entries at 100 and 103, the updates file at 101, and both open at the first try.
abbrev dumps : Dumps
dumps = record {
  attempts = λ _. true ∷ [];
  events = λ (i : Input).
      if str_eq i.filetype "ribs" then entry 100 ∷ entry 103 ∷ [] else gap ∷ entry 101 ∷ [];
}

abbrev blank : Record
blank = record {
  bd_entry = none;
  dump_project = "";
  dump_collector = "";
  dump_type = DumpType.update;
  dump_time = 0;
  record_time = 0;
  dump_pos = DumpPos.dump_start;
  status = RecordStatus.empty_source;
}

abbrev inputs : List Input
inputs = rib_file ∷ updates_file ∷ []

merged_stream_example :
    let (mgr, filter) = mgr_add dumps ReaderMgr.create inputs Filter.create in
    ((calls : ℕ) → IsNonDecreasing 0 (run calls mgr blank filter).0)
    × ((test : ℕ → Bool) (calls : ℕ)
        → calls_left_all mgr.reader_queue < calls
        → (count test (valid_times (run calls mgr blank filter).0)
            ≡ dumps_hold test filter.time_intervals (create_readers dumps inputs Filter.create).0)
          × ((run calls mgr blank filter).1 ≡ true))
merged_stream_example =
    merged_stream dumps inputs Filter.create blank
      ((omega arith, (omega arith, tt)), ((omega arith, tt), tt))

-- A reader of the RIB at its entry at 100, and one of the updates at 101.
abbrev at_rib : Reader
at_rib = record {
  dump_name = "rib.0";
  dump_project = "ris";
  dump_collector = "rrc00";
  dump_type = "ribs";
  dump_time = 100;
  record_time = 100;
  bd_entry = some 100;
  successful_read = 1;
  valid_read = 1;
  status = Status.valid_entry;
  skip_dump_check = true;
  attempts = [];
  events = entry 103 ∷ [];
}

abbrev at_updates : Reader
at_updates = record at_rib {
  dump_name = "updates.0";
  dump_type = "updates";
  record_time = 101;
  bd_entry = some 101;
  events = [];
}

abbrev both : ReaderMgr.ReaderMgr
both = record { reader_queue = at_rib ∷ at_updates ∷ []; status = non_empty }

both-IsValid : IsValid 100 both
unfolding is_end_of_dump
both-IsValid = record {
  consistent = tt;
  sorted = (omega arith, (omega arith, tt));
  ready = (((omega arith, tt), refl), ((tt, refl), tt));
}

get_next_record-IsOrderedNext_example :
    (next : Next) × (get_next_record both blank Filter.create ≡ some next)
    × IsOrderedNext 100 both next
get_next_record-IsOrderedNext_example =
    get_next_record-IsOrderedNext 100 both blank Filter.create both-IsValid

both-IsOpen : All IsOpen both.reader_queue
both-IsOpen = (λ _. refl, (λ _. refl, tt))

calls_enough : calls_left_all both.reader_queue < 9
unfolding calls_left_all calls_left is_valid_entry
calls_enough = omega arith

-- Three calls deliver the three entries, and a fourth finds nothing.
run_complete_example :
    (count (λ _. true) (valid_times (run 9 both blank Filter.create).0)
      ≡ pending_all (λ _. true) [] both.reader_queue)
    × ((run 9 both blank Filter.create).1 ≡ true)
run_complete_example =
    run_complete (λ _. true) 9 100 both blank Filter.create both-IsValid both-IsOpen calls_enough

-- RIBs at 100, 150 and 200, with a period of 100.
abbrev three_ribs : List Input
three_ribs =
    rib_file
    ∷ record rib_file { epoch_filetime = 150 }
    ∷ record rib_file { epoch_filetime = 200 }
    ∷ []

abbrev periodic : FilterMgr
periodic = record Filter.create { rib_period = 100 }

period_check-IsSpaced_example : IsSpaced 100 none (passed_times "ris.rrc00" three_ribs periodic)
period_check-IsSpaced_example =
    period_check-IsSpaced "ris.rrc00" three_ribs periodic (omega arith)
      (omega arith, (omega arith, (omega arith, tt))) refl

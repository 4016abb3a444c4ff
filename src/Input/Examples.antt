-- ===== src/Input/Examples.antt =====
-- The queue of a RIB, an updates file of its time, and a later one.
use bgpstream.Base.{◌≡◌, refl, true, false, [], ◌∷◌, All, arith, inr}
use bgpstream.Input.{
  Input, InputMgr, non_empty_input_queue, push_sorted_input, get_queue_to_process, is_empty,
  is_same, goes_before, first_char, push_loop,
}
use bgpstream.Input.Push.{IsValid, IsConsistent, IsPushed, push_sorted_input-IsPushed}
use bgpstream.Input.Batch.{Batched, IsTimed, get_queue_to_process-Batched}
use bgpstream.Input.Drain.{drain, drain-IsDrained}

runs : Unit {0}
unfolding is_same goes_before first_char IsConsistent push_sorted_input push_loop
runs = tt

abbrev rib : Input
rib = record {
  filename = "rib.0";
  fileproject = "ris";
  filecollector = "rrc00";
  filetype = "ribs";
  epoch_filetime = 3600;
  time_span = 120;
}

abbrev updates : Input
updates = record rib { filename = "updates.0"; filetype = "updates"; time_span = 300 }

abbrev later : Input
later = record updates { filename = "updates.9"; epoch_filetime = 9000 }

abbrev queued : InputMgr
queued = record { queue = updates ∷ later ∷ []; status = non_empty_input_queue }

queued-IsValid : IsValid queued
unfolding runs
queued-IsValid = record {
  consistent = tt;
  ordered = ((record { in_time = omega arith; ribs_first = refl; differ = refl }, tt), (tt, tt));
}

push_rib :
    push_sorted_input queued rib ≡ (record queued { queue = rib ∷ updates ∷ later ∷ [] }, true)
unfolding runs
push_rib = refl

push_again : push_sorted_input queued later ≡ (queued, false)
unfolding runs
push_again = refl

push_sorted_input-IsPushed_example :
    let (mgr, added) = push_sorted_input queued rib in IsPushed rib queued mgr added
push_sorted_input-IsPushed_example = push_sorted_input-IsPushed queued rib queued-IsValid

get_queue_to_process-Batched_example :
    let (result, mgr) = get_queue_to_process queued in Batched queued result mgr
get_queue_to_process-Batched_example = get_queue_to_process-Batched queued queued-IsValid

queued-IsTimed : All IsTimed queued.queue
queued-IsTimed = (
  record { kind = inr refl; spans = omega arith; fits = omega arith },
  (record { kind = inr refl; spans = omega arith; fits = omega arith }, tt),
)

drain-IsDrained_example : ((drain 2 queued).0 ≡ queued.queue) × (is_empty (drain 2 queued).1 ≡ true)
drain-IsDrained_example = drain-IsDrained 2 queued queued-IsValid queued-IsTimed (omega arith)

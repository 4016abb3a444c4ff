-- ===== src/DataSource.antt =====
-- lib/bgpstream_datasource.c: bgpstream_datasource_mgr_update_input_queue. The answers of the data
-- source are a list, in the order of the calls: an error, or the inputs that the source pushes on the
-- queue, of which it returns how many were new. Where the list ends, it has no more.
pub mod Updates
pub mod Blocking
mod Examples
use bgpstream.Base.{
  ℕ, zero, suc, ◌+◌, ◌*◌, Bool, true, false, Option, none, some, List, [], ◌∷◌, ltb, if◌then◌else◌,
}
use bgpstream.Input.{Input, InputMgr, push_sorted_input}

abbrev pub min_wait : ℕ
min_wait = 30

abbrev pub max_wait : ℕ
max_wait = 150

pub data Answer : Type 0 where
  error : Answer
  pushed : List Input → Answer

-- -1, or the number of the results.
pub data Results : Type 0 where
  failed : Results
  count : ℕ → Results

-- The pushes of a data source, and the sum of what they return.
unfoldable pub push_all : InputMgr → List Input → InputMgr × ℕ
push_all mgr [] = (mgr, 0)
push_all mgr (input ∷ next) =
    let (mgr', added) = push_sorted_input mgr input in
    let (mgr'', n) = push_all mgr' next in (mgr'', if added then suc n else n)

-- What the update leaves: its result, the queue, the answers to come, and how long it slept.
pub record Updated : Type 0 where
  pub result : Results
  pub input_mgr : InputMgr
  pub answers : List Answer
  pub waited : ℕ

unfoldable pub back_off : ℕ → ℕ
back_off backoff_time = if ltb max_wait (backoff_time * 2) then max_wait else backoff_time * 2

-- The do-while loop; `none` is a loop that does not end.
unfoldable pub update_loop : Bool → ℕ → ℕ → InputMgr → List Answer → Option Updated
update_loop blocking backoff_time waited mgr [] =
    if blocking
    then none
    else some (record { result = count 0; input_mgr = mgr; answers = []; waited = waited })
update_loop blocking backoff_time waited mgr (error ∷ answers) =
    some (record { result = failed; input_mgr = mgr; answers = answers; waited = waited })
update_loop blocking backoff_time waited mgr (pushed inputs ∷ answers) =
    let (mgr', n) = push_all mgr inputs in
    let again = update_loop blocking (back_off backoff_time) (waited + backoff_time) mgr' answers in
    elim n [
      | zero ↦
          if blocking
          then again
          else some
              (record { result = count 0; input_mgr = mgr'; answers = answers; waited = waited })
      | suc k ↦
          some (record {
            result = count (suc k);
            input_mgr = mgr';
            answers = answers;
            waited = waited;
          })
    ]

-- The backoff time is back at its least after each update.
unfoldable pub update_input_queue : Bool → InputMgr → List Answer → Option Updated
update_input_queue blocking mgr answers = update_loop blocking min_wait 0 mgr answers

-- ===== src/Stream/Next.antt =====
-- lib/bgpstream.c: bgpstream_get_next_record, which fills the input queue from the data source and the
-- reader manager from the input queue.
use bgpstream.Base.{ℕ, zero, suc, Bool, not, Option, none, some, List, [], if◌then◌else◌}
use bgpstream.Filter.{FilterMgr}
use bgpstream.Input
use bgpstream.Input.{InputMgr, get_queue_to_process}
use bgpstream.ReaderMgr
use bgpstream.ReaderMgr.{Record, ReaderMgr, Dumps, mgr_add, Next, empty_source, dump_start, update}
use bgpstream.DataSource.{Answer, failed, count, update_input_queue}
use bgpstream.Stream.{StreamStatus, is_on}

-- The fields of bgpstream_t that the call uses, with the answers of the data source.
pub record Session : Type 0 where
  pub status : StreamStatus
  pub blocking : Bool
  pub answers : List Answer
  pub input_mgr : InputMgr
  pub reader_mgr : ReaderMgr
  pub filter_mgr : FilterMgr

-- bgpstream_record_clear without the generator of elements.
unfoldable pub record_clear : Record → Record
record_clear rec = record rec {
  status = empty_source;
  dump_pos = dump_start;
  dump_project = "";
  dump_collector = "";
  dump_type = update;
  dump_time = 0;
  record_time = 0;
  bd_entry = none;
}

-- How a loop ends: it goes on with a session, or the call returns 0 or -1.
pub data Step : Type 0 where
  ready : Session → Step
  no_data : Session → Step
  failure : Session → Step

-- The inner loop, while the input queue is empty.
unfoldable pub query_loop : ℕ → Session → Option Step
query_loop zero bs = none
query_loop (suc n) bs =
    if not (Input.is_empty bs.input_mgr)
    then some (ready bs)
    else elim (update_input_queue bs.blocking bs.input_mgr bs.answers) [
      | none ↦ none
      | some u ↦
          let bs' = record bs { answers = u.answers; input_mgr = u.input_mgr } in
          elim u.result [
            | failed ↦ some (failure bs')
            | count k ↦ elim k [ zero ↦ some (no_data bs') | suc m ↦ query_loop n bs' ]
          ]
    ]

-- The inputs that get_queue_to_process returns, none of them where it returns NULL, handed to the
-- reader manager.
unfoldable pub process : Dumps → Session → Session
process dumps bs =
    let (batch, input_mgr') = get_queue_to_process bs.input_mgr in
    let inputs : List Input.Input = elim batch [ none ↦ [] | some queue ↦ queue ] in
    let (reader_mgr', filter_mgr') = mgr_add dumps bs.reader_mgr inputs bs.filter_mgr in
    record bs { input_mgr = input_mgr'; reader_mgr = reader_mgr'; filter_mgr = filter_mgr' }

-- The outer loop, while the reader manager is empty.
unfoldable pub fill_loop : ℕ → Dumps → Session → Option Step
fill_loop zero dumps bs = none
fill_loop (suc n) dumps bs =
    if not (ReaderMgr.is_empty bs.reader_mgr)
    then some (ready bs)
    else elim (query_loop (suc n) bs) [
      | none ↦ none
      | some (ready bs') ↦ fill_loop n dumps (process dumps bs')
      | some (no_data bs') ↦ some (no_data bs')
      | some (failure bs') ↦ some (failure bs')
    ]

-- What the call returns: -1, or the code of the manager, with the record and the session.
pub record Returned : Type 0 where
  pub code : Option ℕ
  pub rec : Record
  pub session : Session

unfoldable pub after_fill : Record → Step → Option Returned
after_fill rec (failure bs) = some (record { code = none; rec = rec; session = bs })
after_fill rec (no_data bs) = some (record { code = some 0; rec = rec; session = bs })
after_fill rec (ready bs) = elim (ReaderMgr.get_next_record bs.reader_mgr rec bs.filter_mgr) [
  | none ↦ none
  | some next ↦ some (record {
    code = some next.code;
    rec = next.rec;
    session = record bs { reader_mgr = next.mgr; filter_mgr = next.filter };
  })
]

-- bgpstream_get_next_record, with at most `fuel` turns of its loops.
unfoldable pub get_next_record : ℕ → Dumps → Session → Record → Option Returned
get_next_record fuel dumps bs rec =
    if is_on bs.status
    then elim (fill_loop fuel dumps bs) [
      | none ↦ none
      | some step ↦ after_fill (record_clear rec) step
    ]
    else some (record { code = none; rec = rec; session = bs })

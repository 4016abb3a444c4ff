-- ===== src/Filter.antt =====
-- lib/bgpstream_filter.{h,c}: the filters of a stream.
use Prim.Native.String.{String}
use bgpstream.Base.{
  ℕ, Bool, true, false, ◌&&◌, not, Option, none, List, [], ◌∷◌, ltb, ◌==◌, if◌then◌else◌,
}

-- BGPSTREAM_FOREVER.
abbrev pub forever : ℕ
forever = 0

pub record Interval : Type 0 where
  pub begin_time : ℕ
  pub end_time : ℕ

-- The fields of bgpstream_filter_mgr_t that the readers use. `last_processed_ts` is the hash map from
-- "project.collector" to a time: a function, `none` where the key is absent.
pub record FilterMgr : Type 0 where
  pub time_intervals : List Interval
  pub rib_period : ℕ
  pub last_processed_ts : String → Option ℕ

abbrev pub create : FilterMgr
create = record { time_intervals = []; rib_period = 0; last_processed_ts = λ _. none }

pub rib_period_filter_add : FilterMgr → ℕ → FilterMgr
rib_period_filter_add mgr period = record mgr { rib_period = period }

unfoldable pub interval_filter_add : FilterMgr → ℕ → ℕ → FilterMgr
interval_filter_add mgr begin_time end_time = record mgr {
  time_intervals = record { begin_time = begin_time; end_time = end_time } ∷ mgr.time_intervals;
}

-- The loop of `validate` over the intervals; `true` is the return value 0 and `false` is -1.
unfoldable pub valid_intervals : List Interval → Bool
valid_intervals [] = true
valid_intervals (tif ∷ next) =
    if not (tif.end_time == forever) && ltb tif.end_time tif.begin_time
    then false
    else valid_intervals next

unfoldable pub validate : FilterMgr → Bool
validate mgr = valid_intervals mgr.time_intervals

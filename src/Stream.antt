-- ===== src/Stream.antt =====
-- lib/bgpstream.c: the status of a stream, and the calls that it admits.
pub mod Status
pub mod Next
pub mod Total
mod Examples
use bgpstream.Base.{ℕ, Bool, true, false, ◌==◌, if◌then◌else◌}
use bgpstream.Filter
use bgpstream.Filter.{FilterMgr, forever, rib_period_filter_add, interval_filter_add, validate}

pub data StreamStatus : Type 0 where
  allocated on off : StreamStatus

-- The fields of bgpstream_t that these calls use; `blocking` is the one of the data source manager.
pub record Bgpstream : Type 0 where
  pub status : StreamStatus
  pub filter_mgr : FilterMgr
  pub blocking : Bool

abbrev pub create : Bgpstream
create = record { status = allocated; filter_mgr = Filter.create; blocking = false }

unfoldable pub is_allocated : StreamStatus → Bool
is_allocated allocated = true
is_allocated on = false
is_allocated off = false

unfoldable pub is_on : StreamStatus → Bool
is_on allocated = false
is_on on = true
is_on off = false

unfoldable pub add_rib_period_filter : Bgpstream → ℕ → Bgpstream
add_rib_period_filter bs period =
    if is_allocated bs.status
    then record bs { filter_mgr = rib_period_filter_add bs.filter_mgr period }
    else bs

unfoldable pub set_live_mode : Bgpstream → Bgpstream
set_live_mode bs = if is_allocated bs.status then record bs { blocking = true } else bs

unfoldable pub add_interval_filter : Bgpstream → ℕ → ℕ → Bgpstream
add_interval_filter bs begin_time end_time =
    let live = if end_time == forever then set_live_mode bs else bs in
    if is_allocated bs.status
    then record live { filter_mgr = interval_filter_add live.filter_mgr begin_time end_time }
    else bs

-- bgpstream_start; `init` tells whether the data source is on after its init. The second part of the
-- result is true where the return value is 0.
unfoldable pub start : Bool → Bgpstream → Bgpstream × Bool
start init bs =
    if is_allocated bs.status
    then (if validate bs.filter_mgr
        then (if init
            then (record bs { status = on }, true)
            else (record bs { status = allocated }, false))
        else (bs, false))
    else (bs, true)

unfoldable pub stop : Bgpstream → Bgpstream
stop bs = if is_on bs.status then record bs { status = off } else bs

-- ===== src/Reader/Examples.antt =====
-- A dump that opens at the third try.
use bgpstream.Base.{◌≡◌, ◌≤◌, true, false, [], ◌∷◌, take}
use bgpstream.Reader.{open_loop, dump_open_max_retries, dump_open_min_retry_wait}
use bgpstream.Reader.Opening.{any_opens, open_loop_lem}

open_loop_lem_example :
    let (opened, slept) =
      open_loop dump_open_max_retries (false ∷ false ∷ true ∷ []) dump_open_min_retry_wait 0 in
    (opened ≡ any_opens (take dump_open_max_retries (false ∷ false ∷ true ∷ [])))
    × (slept ≤ 150)
    × (opened ≡ false → slept ≡ 150)
open_loop_lem_example = open_loop_lem (false ∷ false ∷ true ∷ [])

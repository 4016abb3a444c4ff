-- ===== src/DataSource/Examples.antt =====
-- An update in live mode that waits for two answers without inputs.
use bgpstream.Base.{◌*◌, ◌≤◌, ◌≡◌, ◌≢◌, true, some, List, [], ◌∷◌, ◌++◌, length}
use bgpstream.Input.{empty_input_queue}
use bgpstream.DataSource.{
  min_wait, max_wait, Answer, error, pushed, count, Updated, update_input_queue,
}
use bgpstream.DataSource.Blocking.{IsQuiet, IsNews, update_waits}

abbrev two_quiet : List Answer
two_quiet = pushed [] ∷ (pushed [] ∷ [])

update_waits_example :
    (u : Updated) × (update_input_queue true
        (record { queue = []; status = empty_input_queue })
        (two_quiet ++ (error ∷ []))
      ≡ some u)
    × (u.answers ≡ [])
    × (u.result ≢ count 0)
    × (min_wait * length two_quiet ≤ u.waited)
    × (u.waited ≤ max_wait * length two_quiet)
update_waits_example =
    update_waits two_quiet error [] (unfold IsQuiet in (tt, (tt, tt))) (unfold IsNews in tt)

-- ===== src/Tests/Queries.antt =====
-- The repository of the history: its theorems at the database of the examples.
use raspi_cctv_tcp_server.Prelude.{
  ℕ, ◌≤◌, true, ◌&&◌, List, map, pos, codes, c_str, has_char, ◌≡◌, refl, arith, length, All,
}
use raspi_cctv_tcp_server.Exec.{ok}
use raspi_cctv_tcp_server.Db.Contract.{Row, of_type, in_range, IsNewestFirst}
use raspi_cctv_tcp_server.Db.Histories.{
  get_histories, get_histories_by_event_type, get_histories_by_date_range,
  get_histories_by_event_type_and_date_range,
}
use raspi_cctv_tcp_server.Db.Histories.Queries.{tidy_from}
use raspi_cctv_tcp_server.Db.Histories.Listed.{
  get_histories_by_event_type_and_date_range-IsNewestFirst,
}
use raspi_cctv_tcp_server.Db.Memory.{memory, tables}
use raspi_cctv_tcp_server.Db.Histories.Bounds.{AtMost, queries-AtMost}
use raspi_cctv_tcp_server.Db.Memory.Limits.{memory-RowLimits}
use raspi_cctv_tcp_server.Db.Memory.Rows.{history_statements}
use raspi_cctv_tcp_server.Tests.Sample.{whole_numbers, world}

abbrev from_noon : List ℕ
from_noon = codes "2025-06-01 00:00:00"

abbrev to_night : List ℕ
to_night = codes "2025-06-02 23:59:59"

get_histories_by_event_type_and_date_range-IsNewestFirst_example :
    (rs : List (Row ℕ)) × (get_histories_by_event_type_and_date_range whole_numbers memory 3
        (pos 1)
        from_noon
        to_night
        (pos 2)
        (pos 0)
        world.db
      ≡ (ok (map (tidy_from whole_numbers) rs), world.db))
    × All
        (λ r.
          (of_type memory tables (pos 1) r
            && in_range memory tables (c_str from_noon) (c_str to_night) r)
          ≡ true)
        rs
    × IsNewestFirst memory tables rs
    × (length rs ≤ 2)
unfolding has_char c_str
get_histories_by_event_type_and_date_range-IsNewestFirst_example =
    get_histories_by_event_type_and_date_range-IsNewestFirst whole_numbers memory tables
      history_statements 3 2 0 world.db (pos 1) from_noon to_night (omega arith) refl refl

-- The sample's dates, on a page of three that starts behind the first row.
queries-AtMost_example :
    AtMost 3 (get_histories whole_numbers memory 4 (pos 3) (pos 1) world.db)
    × AtMost 3 (get_histories_by_event_type whole_numbers memory 4 (pos 0) (pos 3) (pos 1) world.db)
    × AtMost 3 (
        get_histories_by_date_range whole_numbers memory 4 from_noon to_night
          (pos 3)
          (pos 1)
          world.db)
    × AtMost 3 (
        get_histories_by_event_type_and_date_range whole_numbers memory 4
          (pos 0)
          from_noon
          to_night
          (pos 3)
          (pos 1)
          world.db)
queries-AtMost_example =
    queries-AtMost whole_numbers memory memory-RowLimits 4 3 (pos 1) world.db (pos 0) from_noon
      to_night

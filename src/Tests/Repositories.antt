-- ===== src/Tests/Repositories.antt =====
-- The two repositories at the database of the examples.
use raspi_cctv_tcp_server.Prelude.{
  some, not, ◌&&◌, true, [], ◌∷◌, ◌++◌, map, Text, codes, pos, ◌≡◌, refl, find, filter, c_str,
  has_char, is_none, ℕ,
}
use raspi_cctv_tcp_server.Exec.{ok}
use raspi_cctv_tcp_server.Db.Model.{User, History}
use raspi_cctv_tcp_server.Db.Contract.{has_email, has_id, set_password, page, of_type, in_range}
use raspi_cctv_tcp_server.Db.Users.Lookup.{Leaves}
use raspi_cctv_tcp_server.Db.Users.Repository.{user_repository, Created, user_repository_lem}
use raspi_cctv_tcp_server.Db.Histories.Queries.{history_from, tidy_from, row_of, LeavesRows}
use raspi_cctv_tcp_server.Db.Histories.Removal.{row_has}
use raspi_cctv_tcp_server.Db.Histories.Repository.{history_repository, history_repository_lem}
use raspi_cctv_tcp_server.Db.Memory.{memory, tables}
use raspi_cctv_tcp_server.Db.Memory.Users.{user_statements}
use raspi_cctv_tcp_server.Db.Memory.Rows.{history_statements}
use raspi_cctv_tcp_server.Tests.Sample.{whole_numbers, world, bob, ann, noon}

abbrev newcomer : User
newcomer = record { id = pos 0; email = bob; password_hash = codes "ab12"; created_at = noon }

user_repository_lem_example :
    let R = user_repository memory in
    (R.get_user_by_email ann world.db
      ≡ (ok (find (has_email (c_str ann)) world.db.users), world.db))
    × (R.get_user_by_id (pos 1) world.db ≡ (ok (find (has_id (pos 1)) world.db.users), world.db))
    × Created memory tables user_statements newcomer world.db
        (find (has_email (c_str bob)) world.db.users)
        (R.create_user newcomer world.db)
    × Leaves memory tables user_statements world.db true
        (map (set_password (pos 1) (c_str (codes "cd"))) world.db.users)
        (R.update_user_password (pos 1) (codes "cd") world.db)
    × Leaves memory tables user_statements world.db
        (not (is_none (find (has_id (pos 1)) world.db.users)))
        (filter (λ v. not (has_id (pos 1) v)) world.db.users)
        (R.delete_user (pos 1) world.db)
unfolding has_char c_str
user_repository_lem_example =
    user_repository_lem memory tables user_statements newcomer ann (pos 1) (codes "cd") world.db
      refl

abbrev event : History ℕ
event = record {
  date = codes "2025-06-03 10:00:00";
  image_path = codes "b.jpg";
  plate_number = codes "12A";
  event_type = pos 1;
  start_snapshot = [];
  end_snapshot = [];
  speed = some 61;
  id = pos 0;
}

abbrev first_day : Text
first_day = codes "2025-06-01 00:00:00"

abbrev last_day : Text
last_day = codes "2025-06-30 23:59:59"

history_repository_lem_example :
    let R = history_repository whole_numbers memory in
    let dates = in_range memory tables (c_str first_day) (c_str last_day) in
    LeavesRows whole_numbers memory tables history_statements world.db true
      (world.db.rows ++ row_of whole_numbers memory tables history_statements world.db event ∷ [])
      (R.create_history event world.db)
    × (R.get_histories (pos 2) (pos 1) world.db ≡ (
      ok (map (history_from whole_numbers) (page memory tables (λ _. true) 2 1 world.db)),
      world.db,
    ))
    × (R.get_histories_by_event_type (pos 1) (pos 2) (pos 1) world.db ≡ (
      ok (
          map
            (tidy_from whole_numbers)
            (page memory tables (of_type memory tables (pos 1)) 2 1 world.db)),
      world.db,
    ))
    × (R.get_histories_by_date_range first_day last_day (pos 2) (pos 1) world.db
        ≡ (ok (map (tidy_from whole_numbers) (page memory tables dates 2 1 world.db)), world.db))
    × (R.get_histories_by_event_type_and_date_range
          (pos 1)
          first_day
          last_day
          (pos 2)
          (pos 1)
          world.db
        ≡ (
          ok (
              map (tidy_from whole_numbers) (
                page memory tables (λ r. of_type memory tables (pos 1) r && dates r) 2 1 world.db)),
          world.db,
        ))
    × LeavesRows whole_numbers memory tables history_statements world.db
        (not (
          is_none
            (find (row_has whole_numbers memory tables history_statements (pos 1)) world.db.rows)))
        (filter
          (λ r. not (row_has whole_numbers memory tables history_statements (pos 1) r))
          world.db.rows)
        (R.delete_history (pos 1) world.db)
unfolding has_char c_str
history_repository_lem_example =
    history_repository_lem whole_numbers memory tables history_statements event (pos 1) (pos 1)
      first_day last_day 2 1 world.db refl refl refl

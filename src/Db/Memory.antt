-- ===== src/Db/Memory.antt =====
-- A database in memory that meets SQLite's contract: the statements of the program run on two
-- lists. It stands in for SQLite in the examples and shows that the contract can be met.
pub mod Order
pub mod Users
pub mod Rows
pub mod Limits
pub mod Outcomes
pub mod Columns
use text.Mathlib.Text.{◌==◌ as str_eq}
use raspi_cctv_tcp_server.Prelude.{
  ℕ, zero, suc, ◌+◌, ◌-◌, max, Option, none, some, Bool, true, false, not, ◌&&◌, List, [], ◌∷◌,
  ◌++◌, map, String, Text, ℤ, pos, to_nat, length, take, drop, find, filter, text_eq, has_char,
  eq_ℤ, ◌==◌, if◌then◌else◌, is_none,
}
use raspi_cctv_tcp_server.Db.Sqlite.{Sqlite, StepCode, row, done, failed}
use raspi_cctv_tcp_server.Db.Model.{User}
use raspi_cctv_tcp_server.Db.Users.{
  insert_user_sql, select_by_email_sql, select_by_id_sql, update_password_sql, delete_user_sql,
}
use raspi_cctv_tcp_server.Db.Histories.{
  insert_history_sql, select_all_sql, select_by_type_sql, select_by_dates_sql,
  select_by_type_and_dates_sql, delete_history_sql,
}
use raspi_cctv_tcp_server.Db.Contract.{Row, Tables, has_email, has_id, set_password}
use raspi_cctv_tcp_server.Db.Memory.Order.{newest_first, text_le}

pub data Kind : Type 0 where
  insert_user by_email by_id update_password delete_user : Kind
  insert_history all by_type by_dates by_type_and_dates delete_history : Kind

abbrev kind_of : String → Option Kind
kind_of sql =
    if str_eq sql insert_user_sql
    then some insert_user
    else if str_eq sql select_by_email_sql
    then some by_email
    else if str_eq sql select_by_id_sql
    then some by_id
    else if str_eq sql update_password_sql
    then some update_password
    else if str_eq sql delete_user_sql
    then some delete_user
    else if str_eq sql insert_history_sql
    then some insert_history
    else if str_eq sql select_all_sql
    then some all
    else if str_eq sql select_by_type_sql
    then some by_type
    else if str_eq sql select_by_dates_sql
    then some by_dates
    else if str_eq sql select_by_type_and_dates_sql
    then some by_type_and_dates
    else if str_eq sql delete_history_sql
    then some delete_history
    else none

-- Rows are numbered from 1, and speeds are numbers.
pub record Store : Type 0 where
  pub users : List User
  pub rows : List (Row ℕ)
  pub changed : ℕ

-- The rows left, the current one first.
pub data Cursor : Type 0 where
  fresh : Cursor
  at_users : List User → Cursor
  at_rows : List (Row ℕ) → Cursor

pub record Statement : Type 0 where
  pub kind : Kind
  pub texts : ℕ → Text
  pub ints : ℕ → ℤ
  pub speed : Option ℕ
  pub cursor : Cursor

abbrev statement : Kind → Statement
statement k = record { kind = k; texts = λ _. []; ints = λ _. pos 0; speed = none; cursor = fresh }

abbrev prepared : Option Kind → Option Statement
prepared none = none
prepared (some k) = some (statement k)

abbrev pub Stepped : Type 0
Stepped = StepCode × Statement × Store

abbrev pub give_users : Store → Statement → List User → Stepped
give_users db s [] = (done, record s { cursor = at_users [] }, db)
give_users db s (u ∷ us) = (row, record s { cursor = at_users (u ∷ us) }, db)

abbrev pub give_rows : Store → Statement → List (Row ℕ) → Stepped
give_rows db s [] = (done, record s { cursor = at_rows [] }, db)
give_rows db s (r ∷ rs) = (row, record s { cursor = at_rows (r ∷ rs) }, db)

abbrev pub largest_id : List User → ℕ
largest_id [] = 0
largest_id (u ∷ us) = max (to_nat u.id) (largest_id us)

abbrev pub largest_row : List (Row ℕ) → ℕ
largest_row [] = 0
largest_row (r ∷ rs) = max (to_nat r.id) (largest_row rs)

abbrev add_user : Store → Statement → Stepped
add_user db s =
    if is_none (find (has_email (s.texts 1)) db.users)
    then (
      done,
      s,
      record db {
        users =
            db.users
            ++ record {
              id = pos (suc (largest_id db.users));
              email = s.texts 1;
              password_hash = s.texts 2;
              created_at = s.texts 3;
            }
              ∷ [];
      },
    )
    else (failed, s, db)

abbrev remove_user : Store → ℤ → Store
remove_user db i =
    let left = filter (λ u. not (has_id i u)) db.users in
    record db { users = left; changed = length db.users - length left }

abbrev remove_row : Store → ℤ → Store
remove_row db i =
    let left = filter (λ r. not (eq_ℤ r.id i)) db.rows in
    record db { rows = left; changed = length db.rows - length left }

abbrev new_row : Store → Statement → Row ℕ
new_row db s = record {
  id = pos (suc (largest_row db.rows));
  date = s.texts 1;
  image_path = s.texts 2;
  plate_number = s.texts 3;
  event_type = s.ints 4;
  start_snapshot = some (s.texts 5);
  end_snapshot = some (s.texts 6);
  speed = s.speed;
}

abbrev in_dates : Text → Text → Row ℕ → Bool
in_dates a b r = text_le a r.date && text_le r.date b

abbrev paged : Store → Statement → (Row ℕ → Bool) → ℤ → ℤ → Stepped
paged db s p limit offset =
    give_rows db s (take (to_nat limit) (drop (to_nat offset) (newest_first (filter p db.rows))))

abbrev run : Store → Statement → Kind → Stepped
run db s insert_user = add_user db s
run db s by_email = give_users db s (filter (has_email (s.texts 1)) db.users)
run db s by_id = give_users db s (filter (has_id (s.ints 1)) db.users)
run db s update_password =
    (done, s, record db { users = map (set_password (s.ints 2) (s.texts 1)) db.users })
run db s delete_user = (done, s, remove_user db (s.ints 1))
run db s insert_history = (done, s, record db { rows = db.rows ++ new_row db s ∷ [] })
run db s all = paged db s (λ _. true) (s.ints 1) (s.ints 2)
run db s by_type = paged db s (λ r. eq_ℤ r.event_type (s.ints 1)) (s.ints 2) (s.ints 3)
run db s by_dates = paged db s (in_dates (s.texts 1) (s.texts 2)) (s.ints 3) (s.ints 4)
run db s by_type_and_dates =
    paged db s (λ r. eq_ℤ r.event_type (s.ints 1) && in_dates (s.texts 2) (s.texts 3) r) (s.ints 4)
      (s.ints 5)
run db s delete_history = (done, s, remove_row db (s.ints 1))

abbrev step_at : Store → Statement → Cursor → Stepped
step_at db s fresh = run db s s.kind
step_at db s (at_users []) = give_users db s []
step_at db s (at_users (u ∷ us)) = give_users db s us
step_at db s (at_rows []) = give_rows db s []
step_at db s (at_rows (r ∷ rs)) = give_rows db s rs

abbrev int_at : Cursor → ℕ → ℤ
int_at (at_users (u ∷ us)) i = u.id
int_at (at_rows (r ∷ rs)) i = if i == 0 then r.id else r.event_type
int_at _ i = pos 0

abbrev text_at : Cursor → ℕ → Option Text
text_at (at_users (u ∷ us)) i =
    if i == 1 then some u.email else if i == 2 then some u.password_hash else some u.created_at
text_at (at_rows (r ∷ rs)) i =
    if i == 1
    then some r.date
    else if i == 2
    then some r.image_path
    else if i == 3
    then some r.plate_number
    else if i == 5
    then r.start_snapshot
    else r.end_snapshot
text_at _ i = none

abbrev speed_at : Cursor → Option ℕ
speed_at (at_rows (r ∷ rs)) = r.speed
speed_at _ = none

abbrev or_zero : Option ℕ → ℕ
or_zero none = 0
or_zero (some v) = v

abbrev pub memory : Sqlite ℕ
memory = record {
  Connection = Store;
  Stmt = Statement;
  prepare = λ db sql. prepared (kind_of sql);
  bind_text = λ i t s. record s { texts = λ j. if j == i then t else s.texts j };
  bind_int = λ i n s. record s { ints = λ j. if j == i then n else s.ints j };
  bind_double = λ i v s. record s { speed = some v };
  bind_null = λ i s. record s { speed = none };
  step = λ db s. step_at db s s.cursor;
  column_int = λ s i. int_at s.cursor i;
  column_text = λ s i. text_at s.cursor i;
  column_double = λ s i. or_zero (speed_at s.cursor);
  column_is_null = λ s i. is_none (speed_at s.cursor);
  changes = λ db. db.changed;
  exec = λ db sql. (true, db);
}

abbrev pub tables : Tables memory
tables = record {
  users = λ db. db.users;
  rows = λ db. db.rows;
  reads_as_number = λ d. not (has_char b':' d);
  date_le = text_le;
  newest_first = newest_first;
}

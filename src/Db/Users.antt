-- ===== src/Db/Users.antt =====
-- src/db/UserRepository.cpp: each method is an action on the connection.
pub mod Lookup
pub mod Removal
pub mod Faults
pub mod Columns
pub mod Keeping
pub mod Repository
pub mod Table
use raspi_cctv_tcp_server.Prelude.{
  Option, none, some, Bool, true, false, String, Text, ℤ, c_str, ◌==◌, if◌then◌else◌,
}
use raspi_cctv_tcp_server.Exec.{Exec, Result, ok, fault, null_text}
use raspi_cctv_tcp_server.Db.Sqlite.{Sqlite, StepCode, row, done, failed, is_done}
use raspi_cctv_tcp_server.Db.Model.{User}

abbrev pub insert_user_sql : String
insert_user_sql = "INSERT INTO users (email, password_hash, created_at) VALUES (?, ?, ?);"

abbrev pub select_by_email_sql : String
select_by_email_sql = "SELECT id, email, password_hash, created_at FROM users WHERE email = ?;"

abbrev pub select_by_id_sql : String
select_by_id_sql = "SELECT id, email, password_hash, created_at FROM users WHERE id = ?;"

abbrev pub update_password_sql : String
update_password_sql = "UPDATE users SET password_hash = ? WHERE id = ?;"

abbrev pub delete_user_sql : String
delete_user_sql = "DELETE FROM users WHERE id = ?;"

-- A `std::string` from a null pointer is a fault.
abbrev user_of : ℤ → Option Text → Option Text → Option Text → Result User
user_of id (some e) (some h) (some c) =
    ok (record { id = id; email = e; password_hash = h; created_at = c })
user_of _ _ _ _ = fault null_text

abbrev present : Result User → Result (Option User)
present (ok u) = ok (some u)
present (fault f) = fault f

module _ {D : Type 0} (S : Sqlite D) where
  unfoldable pub create_user : User → Exec S.Connection Bool
  create_user user db = elim (S.prepare db insert_user_sql) [
    | none ↦ (ok false, db)
    | some stmt ↦
        let bound =
          S.bind_text 3 (c_str user.created_at)
            (S.bind_text 2 (c_str user.password_hash) (S.bind_text 1 (c_str user.email) stmt)) in
        let (code, _, db') = S.step db bound in (ok (is_done code), db')
  ]

  read_user : S.Stmt → Result User
  read_user stmt =
      user_of (S.column_int stmt 0) (S.column_text stmt 1) (S.column_text stmt 2)
        (S.column_text stmt 3)

  -- `rc == SQLITE_ROW` after one step: the user in that row.
  first_user : StepCode × S.Stmt × S.Connection → Result (Option User) × S.Connection
  unfolding read_user
  first_user (row, stmt, db) = (present (read_user stmt), db)
  first_user (done, stmt, db) = (ok none, db)
  first_user (failed, stmt, db) = (ok none, db)

  unfoldable pub get_user_by_email : Text → Exec S.Connection (Option User)
  unfolding first_user
  get_user_by_email email db = elim (S.prepare db select_by_email_sql) [
    | none ↦ (ok none, db)
    | some stmt ↦ first_user (S.step db (S.bind_text 1 (c_str email) stmt))
  ]

  unfoldable pub get_user_by_id : ℤ → Exec S.Connection (Option User)
  unfolding first_user
  get_user_by_id id db = elim (S.prepare db select_by_id_sql) [
    | none ↦ (ok none, db)
    | some stmt ↦ first_user (S.step db (S.bind_int 1 id stmt))
  ]

  unfoldable pub update_user_password : ℤ → Text → Exec S.Connection Bool
  update_user_password id new_password_hash db = elim (S.prepare db update_password_sql) [
    | none ↦ (ok false, db)
    | some stmt ↦
        let bound = S.bind_int 2 id (S.bind_text 1 (c_str new_password_hash) stmt) in
        let (code, _, db') = S.step db bound in (ok (is_done code), db')
  ]

  unfoldable pub delete_user : ℤ → Exec S.Connection Bool
  delete_user id db = elim (S.prepare db delete_user_sql) [
    | none ↦ (ok false, db)
    | some stmt ↦
        let (code, _, db') = S.step db (S.bind_int 1 id stmt) in
        (ok (if is_done code then if S.changes db' == 0 then false else true else false), db')
  ]

-- ===== src/Db/Contract/Outcomes.antt =====
-- What a step of a statement can do to the tables, whatever its result code: the part of SQLite's
-- contract that holds on a database that is locked or full too. A statement that only reads
-- changes no table (sqlite3_stmt_readonly), and one that writes is carried out or not.
use raspi_cctv_tcp_server.Prelude.{
  ℕ, Option, none, some, List, [], ◌∷◌, ◌++◌, map, Text, ℤ, ◌≡◌, ◌⊎◌, find, String,
}
use raspi_cctv_tcp_server.Db.Sqlite.{Sqlite, StepCode}
use raspi_cctv_tcp_server.Db.Model.{User}
use raspi_cctv_tcp_server.Db.Users.{insert_user_sql, select_by_email_sql, update_password_sql}
use raspi_cctv_tcp_server.Db.Histories.{
  insert_history_sql, select_all_sql, select_by_type_sql, select_by_dates_sql,
  select_by_type_and_dates_sql,
}
use raspi_cctv_tcp_server.Db.Contract.{
  Row, Tables, KeepsRows, KeepsUsers, has_email, has_id, set_password, bind_user, bind_row,
}

-- The texts of the queries.
pub data Query : Type 0 where
  user_by_email all_rows rows_by_type rows_by_dates rows_by_type_and_dates : Query

abbrev pub query_sql : Query → String
query_sql user_by_email = select_by_email_sql
query_sql all_rows = select_all_sql
query_sql rows_by_type = select_by_type_sql
query_sql rows_by_dates = select_by_dates_sql
query_sql rows_by_type_and_dates = select_by_type_and_dates_sql

module _ {D : Type 0} (S : Sqlite D) (T : Tables S) where
  open T use {users, rows}

  -- A user with a new key and the address `e`, which no row has.
  abbrev pub IsNew : List User → Text → User → Type 0
  IsNew us e u =
      (find (has_id u.id) us ≡ none) × (find (has_email u.email) us ≡ none) × (u.email ≡ e)

  pub record Outcomes : Type 1 where
    pub Reads : S.Stmt → Type 0
    pub prepare-Reads :
        (q : Query) (db : S.Connection) (stmt : S.Stmt)
        → S.prepare db (query_sql q) ≡ some stmt
        → Reads stmt
    pub bind_text-Reads :
        (i : ℕ) (t : Text) (stmt : S.Stmt) → Reads stmt → Reads (S.bind_text i t stmt)
    pub bind_int-Reads : (i : ℕ) (n : ℤ) (stmt : S.Stmt) → Reads stmt → Reads (S.bind_int i n stmt)
    pub step-Reads :
        (db db' : S.Connection) (stmt stmt' : S.Stmt) (code : StepCode)
        → Reads stmt
        → S.step db stmt ≡ (code, stmt', db')
        → Reads stmt' × KeepsUsers S T db db' × KeepsRows S T db db'
    pub step-insert_user :
        (db db' : S.Connection) (stmt stmt' : S.Stmt) (code : StepCode) (e h c : Text)
        → S.prepare db insert_user_sql ≡ some stmt
        → S.step db (bind_user S e h c stmt) ≡ (code, stmt', db')
        → (KeepsUsers S T db db'
            ⊎ ((u : User) × IsNew (users db) e u × (users db' ≡ users db ++ u ∷ [])))
          × KeepsRows S T db db'
    pub step-update_password :
        (db db' : S.Connection) (stmt stmt' : S.Stmt) (code : StepCode) (i : ℤ) (h : Text)
        → S.prepare db update_password_sql ≡ some stmt
        → S.step db (S.bind_int 2 i (S.bind_text 1 h stmt)) ≡ (code, stmt', db')
        → (KeepsUsers S T db db' ⊎ (users db' ≡ map (set_password i h) (users db)))
          × KeepsRows S T db db'
    pub step-insert_history :
        (db db' : S.Connection) (stmt stmt' : S.Stmt) (code : StepCode) (d i p : Text) (t : ℤ)
        (s e : Text) (v : Option D)
        → S.prepare db insert_history_sql ≡ some stmt
        → S.step db (bind_row S d i p t s e v stmt) ≡ (code, stmt', db')
        → (KeepsRows S T db db'
            ⊎ ((r : Row D) × (r.event_type ≡ t) × (r.speed ≡ v) × (rows db' ≡ rows db ++ r ∷ [])))
          × KeepsUsers S T db db'

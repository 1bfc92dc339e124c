-- ===== src/Db/Contract/Limits.antt =====
-- What the queries rely on a LIMIT for: the part of SQLite's contract that their ends need.
use raspi_cctv_tcp_server.Prelude.{ℕ, ◌<◌, ◌≤◌, some, Text, ℤ, pos, ◌≡◌}
use raspi_cctv_tcp_server.Db.Sqlite.{Sqlite, row}
use raspi_cctv_tcp_server.Db.Histories.{
  select_all_sql, select_by_type_sql, select_by_dates_sql, select_by_type_and_dates_sql,
}

module _ {D : Type 0} (S : Sqlite D) where
  -- A statement gives one row after the other, and no more than its LIMIT asks for.
  pub record RowLimits : Type 0 where
    -- an upper bound of the rows that are to come
    pub remaining : S.Connection → S.Stmt → ℕ
    pub step-row :
        (db db' : S.Connection) (stmt stmt' : S.Stmt)
        → S.step db stmt ≡ (row, stmt', db')
        → remaining db' stmt' < remaining db stmt
    pub select_all :
        (db : S.Connection) (stmt : S.Stmt) (limit : ℕ) (offset : ℤ)
        → S.prepare db select_all_sql ≡ some stmt
        → remaining db (S.bind_int 2 offset (S.bind_int 1 (pos limit) stmt)) ≤ limit
    pub select_by_type :
        (db : S.Connection) (stmt : S.Stmt) (t : ℤ) (limit : ℕ) (offset : ℤ)
        → S.prepare db select_by_type_sql ≡ some stmt
        → remaining db (S.bind_int 3 offset (S.bind_int 2 (pos limit) (S.bind_int 1 t stmt)))
          ≤ limit
    pub select_by_dates :
        (db : S.Connection) (stmt : S.Stmt) (a b : Text) (limit : ℕ) (offset : ℤ)
        → S.prepare db select_by_dates_sql ≡ some stmt
        → (let dates = S.bind_text 2 b (S.bind_text 1 a stmt) in
            remaining db (S.bind_int 4 offset (S.bind_int 3 (pos limit) dates)) ≤ limit)
    pub select_by_type_and_dates :
        (db : S.Connection) (stmt : S.Stmt) (t : ℤ) (a b : Text) (limit : ℕ) (offset : ℤ)
        → S.prepare db select_by_type_and_dates_sql ≡ some stmt
        → (let dates = S.bind_text 3 b (S.bind_text 2 a (S.bind_int 1 t stmt)) in
            remaining db (S.bind_int 5 offset (S.bind_int 4 (pos limit) dates)) ≤ limit)

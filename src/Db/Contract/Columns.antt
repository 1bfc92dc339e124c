-- ===== src/Db/Contract/Columns.antt =====
-- What the rows that a query gives hold: the part of SQLite's contract that reading them needs.
use raspi_cctv_tcp_server.Prelude.{ℕ, ◌≤◌, some, Text, ◌≡◌}
use raspi_cctv_tcp_server.Db.Sqlite.{Sqlite, row}
use raspi_cctv_tcp_server.Db.Contract.{Tables}
use raspi_cctv_tcp_server.Db.Contract.Outcomes.{Outcomes}

module _ {D : Type 0} (S : Sqlite D) (T : Tables S) (outcomes : Outcomes S T) where
  -- The columns 1, 2 and 3 of the program's queries are not NULL: the tables declare them NOT NULL,
  -- and the time of a user's creation, which they do not, is bound by every insertion.
  pub record Columns : Type 0 where
    pub column_text-some :
        (db db' : S.Connection) (stmt stmt' : S.Stmt) (i : ℕ)
        → outcomes.Reads stmt
        → S.step db stmt ≡ (row, stmt', db')
        → 1 ≤ i
        → i ≤ 3
        → (t : Text) × (S.column_text stmt' i ≡ some t)

-- ===== src/Db/Sqlite.antt =====
-- The calls of SQLite's C interface that the repositories make. SQLite is not part of the
-- repository: its connection, its statements and its calls are parameters.
use raspi_cctv_tcp_server.Prelude.{ℕ, Bool, true, false, Option, String, Text, ℤ}

-- SQLITE_ROW, SQLITE_DONE, any other code
pub data StepCode : Type 0 where
  row done failed : StepCode

pub record Sqlite (Double : Type 0) : Type 1 where
  pub Connection : Type 0
  pub Stmt : Type 0
  -- sqlite3_prepare_v2: the statement, if the call returned SQLITE_OK
  pub prepare : Connection → String → Option Stmt
  pub bind_text : ℕ → Text → Stmt → Stmt
  pub bind_int : ℕ → ℤ → Stmt → Stmt
  pub bind_double : ℕ → Double → Stmt → Stmt
  pub bind_null : ℕ → Stmt → Stmt
  -- sqlite3_step changes the statement, and the database if the statement writes
  pub step : Connection → Stmt → StepCode × Stmt × Connection
  pub column_int : Stmt → ℕ → ℤ
  -- a null pointer for NULL
  pub column_text : Stmt → ℕ → Option Text
  pub column_double : Stmt → ℕ → Double
  -- sqlite3_column_type(stmt, i) == SQLITE_NULL
  pub column_is_null : Stmt → ℕ → Bool
  pub changes : Connection → ℕ
  -- sqlite3_exec: did it return SQLITE_OK?
  pub exec : Connection → String → Bool × Connection

-- rc == SQLITE_DONE
abbrev pub is_done : StepCode → Bool
is_done done = true
is_done row = false
is_done failed = false

-- ===== src/Db/Manager.antt =====
-- src/db/DBManager.cpp and src/db/DBInitializer.cpp: the connection that the server opens once, and
-- the tables it creates.
pub mod Class
pub mod States
use raspi_cctv_tcp_server.Prelude.{
  Option, none, some, Bool, true, false, String, Text, if◌then◌else◌,
}
use raspi_cctv_tcp_server.Db.Sqlite.{Sqlite}

abbrev pub create_user_table : String
create_user_table =
    "\n        CREATE TABLE IF NOT EXISTS users (\n            id INTEGER PRIMARY KEY AUTOINCREMENT,\n            email TEXT UNIQUE NOT NULL,\n            password_hash TEXT NOT NULL,\n            created_at DATETIME DEFAULT CURRENT_TIMESTAMP\n        );\n    "

abbrev pub create_history_table : String
create_history_table =
    "\n        CREATE TABLE IF NOT EXISTS history (\n            id INTEGER PRIMARY KEY,\n            date DATETIME NOT NULL,\n            image_path TEXT NOT NULL,\n            plate_number TEXT NOT NULL,\n            event_type INTEGER NOT NULL,\n            start_snapshot TEXT,\n            end_snapshot TEXT,\n            speed FLOAT\n        );\n    "

module _ {D : Type 0} (S : Sqlite D) where
  -- `db` is none for the null pointer.
  pub record Manager : Type 0 where
    pub path : Text
    pub db : Option S.Connection
    pub is_open : Bool

  abbrev pub new_manager : Text → Manager
  new_manager path = record { path = path; db = none; is_open = false }

  -- `sqlite3_open`, a parameter: did it return SQLITE_OK, and the handle, which is null or not
  -- also when it did not.
  abbrev pub Opener : Type 0
  Opener = Text → Bool × Option S.Connection

  unfoldable pub open_db : Opener → Manager → Bool × Manager
  open_db sqlite3_open m =
      let (is_ok, handle) = sqlite3_open m.path in
      if is_ok
      then (true, record m { db = handle; is_open = true })
      else (false, record m { db = handle })

  -- A null handle is left as it is.
  unfoldable pub close_db : Manager → Manager
  close_db m = elim (m.db) [ none ↦ m | some c ↦ record m { db = none; is_open = false } ]

  -- ~DBManager
  abbrev pub destroy_manager : Manager → Manager
  destroy_manager m = close_db m

  -- isOpen and getDB
  abbrev pub is_open_db : Manager → Bool
  is_open_db m = m.is_open

  abbrev pub get_db : Manager → Option S.Connection
  get_db m = m.db

  -- SQLite answers SQLITE_MISUSE to a null handle.
  abbrev exec_on : Option S.Connection → String → Manager → Bool × Manager
  exec_on none query m = (false, m)
  exec_on (some c) query m = let (is_ok, c') = S.exec c query in (is_ok, record m { db = some c' })

  unfoldable pub execute : String → Manager → Bool × Manager
  execute query m = if is_open_db m then exec_on m.db query m else (false, m)

  -- A table that could not be created is only reported.
  unfoldable pub init : Manager → Manager
  unfolding execute
  init m = (execute create_history_table (execute create_user_table m).1).1

-- ===== src/Db/Manager/States.antt =====
-- The states that a manager can reach.
use raspi_cctv_tcp_server.Prelude.{
  some, true, false, String, Text, ◌≡◌, refl, Bool-cases, Option-cases, inl, inr,
}
use raspi_cctv_tcp_server.Db.Sqlite.{Sqlite}
use raspi_cctv_tcp_server.Db.Manager.{
  Manager, Opener, open_db, close_db, execute, init, create_user_table, create_history_table,
}
use raspi_cctv_tcp_server.Db.Manager.Class.{DbManager, db_manager, db_initializer}

module _ {D : Type 0} (S : Sqlite D) (sqlite3_open : Opener S)
    (opened : (p : Text)
      → (sqlite3_open p).0 ≡ true
      → (c : S.Connection) × ((sqlite3_open p).1 ≡ some c)) where
  -- The class's members, and what a caller can do with them, one call after the other; the server opens a manager only while it is
  -- not open.
  abbrev class : DbManager (Manager S) S.Connection
  class = db_manager S sqlite3_open

  pub data Reachable (path : Text) : Manager S → Type 0 where
    fresh : Reachable path (class.construct path)
    opens :
        {m : Manager S}
        → Reachable path m
        → class.is_open m ≡ false
        → Reachable path (class.open_db m).1
    closes : {m : Manager S} → Reachable path m → Reachable path (class.close_db m)
    ends : {m : Manager S} → Reachable path m → Reachable path (class.destroy m)
    executes :
        {m : Manager S}
        → Reachable path m
        → (query : String) → Reachable path (class.execute query m).1
    inits : {m : Manager S} → Reachable path m → Reachable path ((db_initializer S).init m)

  -- An open manager has a handle.
  abbrev pub HasHandle : Manager S → Type 0
  HasHandle m = m.is_open ≡ true → (c : S.Connection) × (m.db ≡ some c)

  execute-HasHandle :
      (query : String) (m : Manager S) → HasHandle m → HasHandle (execute S query m).1
  unfolding execute
  execute-HasHandle query m h = elim (Bool-cases m.is_open) [
    | inr shut ↦ rw shut (λ e. cc)
    | inl is_open ↦
        let (c, e) = h is_open in rw (is_open, execute, e) (λ _. ((S.exec c query).1, refl))
  ]

  open_db-HasHandle : (m : Manager S) → m.is_open ≡ false → HasHandle (open_db S sqlite3_open m).1
  unfolding open_db
  open_db-HasHandle m shut = elim (Bool-cases (sqlite3_open m.path).0) [
    | inl good ↦ rw (good, open_db) (λ _. opened m.path good)
    | inr bad ↦ rw (bad, open_db, shut) (λ e. cc)
  ]

  close_db-HasHandle : (m : Manager S) → HasHandle m → HasHandle (close_db S m)
  unfolding close_db
  close_db-HasHandle m h = elim (Option-cases m.db) [
    | inl null ↦ rw (null, close_db) h
    | inr (c, held) ↦ rw (held, close_db) (λ e. cc)
  ]

  init-HasHandle : (m : Manager S) → HasHandle m → HasHandle (init S m)
  unfolding init
  init-HasHandle m h =
      execute-HasHandle create_history_table _ (execute-HasHandle create_user_table m h)

  reached : (path : Text) (m : Manager S) → Reachable path m → HasHandle m
  reached path _ fresh = λ e. cc
  reached path _ (opens {m} r shut) = open_db-HasHandle m shut
  reached path _ (closes {m} r) = close_db-HasHandle m (reached path m r)
  reached path _ (ends {m} r) = close_db-HasHandle m (reached path m r)
  reached path _ (executes {m} r query) = execute-HasHandle query m (reached path m r)
  reached path _ (inits {m} r) = init-HasHandle m (reached path m r)

  -- After any sequence of calls of a new manager, in which it is opened only while it is not open,
  -- and with an sqlite3_open that gives a handle when it returns SQLITE_OK: if the manager is
  -- open, then it has a handle.
  pub handle_of_open :
      (path : Text) (m : Manager S)
      → Reachable path m
      → class.is_open m ≡ true
      → (c : S.Connection) × (class.get_db m ≡ some c)
  handle_of_open path m r is_open = reached path m r is_open

-- ===== src/Db/Histories.antt =====
-- src/db/HistoryRepository.cpp: each method is an action on the connection. A query's loop takes
-- fuel, one unit for each call of `sqlite3_step`.
pub mod Queries
pub mod Removal
pub mod Listed
pub mod Steps
pub mod Columns
pub mod Keeping
pub mod Bounds
pub mod Repository
use raspi_cctv_tcp_server.Prelude.{
  ℕ, zero, suc, Option, none, some, Bool, true, false, List, [], ◌∷◌, String, Text, ℤ, c_str,
  is_int, ltb, ◌==◌, if◌then◌else◌,
}
use raspi_cctv_tcp_server.Exec.{Exec, Result, ok, fault, null_text, pure, raise, no_fuel, ◌>>=◌}
use raspi_cctv_tcp_server.Floats.{Floats}
use raspi_cctv_tcp_server.Db.Sqlite.{Sqlite, row, done, failed, is_done}
use raspi_cctv_tcp_server.Db.Model.{History}

abbrev pub insert_history_sql : String
insert_history_sql =
    "INSERT INTO history (date, image_path, plate_number, event_type, start_snapshot, end_snapshot, speed) VALUES (?, ?, ?, ?, ?, ?, ?)"

abbrev pub select_all_sql : String
select_all_sql =
    "SELECT id, date, image_path, plate_number, event_type, start_snapshot, end_snapshot, speed FROM history ORDER BY date DESC LIMIT ? OFFSET ?;"

abbrev pub select_by_type_sql : String
select_by_type_sql =
    "SELECT id, date, image_path, plate_number, event_type, start_snapshot, end_snapshot, speed FROM history WHERE event_type = ? ORDER BY date DESC LIMIT ? OFFSET ?;"

abbrev pub select_by_dates_sql : String
select_by_dates_sql =
    "SELECT id, date, image_path, plate_number, event_type, start_snapshot, end_snapshot, speed FROM history WHERE date BETWEEN ? AND ? ORDER BY date DESC LIMIT ? OFFSET ?;"

abbrev pub select_by_type_and_dates_sql : String
select_by_type_and_dates_sql =
    "SELECT id, date, image_path, plate_number, event_type, start_snapshot, end_snapshot, speed FROM history WHERE event_type = ? AND date BETWEEN ? AND ? ORDER BY date DESC LIMIT ? OFFSET ?;"

abbrev pub delete_history_sql : String
delete_history_sql = "DELETE FROM history WHERE id = ?;"

-- `p ? p : ""`
abbrev pub or_blank : Option Text → Text
or_blank none = []
or_blank (some s) = s

module _ {Float : Type 0} where
  -- A `std::string` from a null pointer is a fault; the snapshots are tested for it.
  abbrev history_of :
      ℤ
      → Option Text
      → Option Text
      → Option Text
      → ℤ
      → Text
      → Text
      → Option Float
      → Result (History Float)
  history_of id (some d) (some i) (some p) t s e v = ok (record {
    date = d;
    image_path = i;
    plate_number = p;
    event_type = t;
    start_snapshot = s;
    end_snapshot = e;
    speed = v;
    id = id;
  })
  history_of _ _ _ _ _ _ _ _ = fault null_text

  -- What the filtered queries do to a row: each event type keeps only its own fields.
  unfoldable pub tidy : History Float → History Float
  tidy h =
      if is_int h.event_type 1
      then record h { start_snapshot = []; end_snapshot = [] }
      else if is_int h.event_type 0
      then record h { speed = none }
      else record h { start_snapshot = []; end_snapshot = []; speed = none }

  abbrev tidied : Result (History Float) → Result (History Float)
  tidied (ok h) = ok (tidy h)
  tidied (fault f) = fault f

module _ (F : Floats) (S : Sqlite F.Double) where
  pub bind_speed : Option F.Float → S.Stmt → S.Stmt
  bind_speed none stmt = S.bind_null 7 stmt
  bind_speed (some v) stmt = S.bind_double 7 (F.widen v) stmt

  unfoldable pub create_history : History F.Float → Exec S.Connection Bool
  unfolding bind_speed
  create_history history db = elim (S.prepare db insert_history_sql) [
    | none ↦ (ok false, db)
    | some stmt ↦
        let texts =
          S.bind_text 3 (c_str history.plate_number)
            (S.bind_text 2 (c_str history.image_path) (S.bind_text 1 (c_str history.date) stmt)) in
        let snapshots =
          S.bind_text 6 (c_str history.end_snapshot) (
            S.bind_text 5 (c_str history.start_snapshot) (S.bind_int 4 history.event_type texts)) in
        let (code, _, db') = S.step db (bind_speed history.speed snapshots) in
        (ok (is_done code), db')
  ]

  pub read_history : S.Stmt → Result (History F.Float)
  read_history stmt =
      history_of (S.column_int stmt 0) (S.column_text stmt 1) (S.column_text stmt 2)
        (S.column_text stmt 3) (S.column_int stmt 4) (or_blank (S.column_text stmt 5))
        (or_blank (S.column_text stmt 6))
        (if S.column_is_null stmt 7 then none else some (F.narrow (S.column_double stmt 7)))

  abbrev read_tidy : S.Stmt → Result (History F.Float)
  read_tidy stmt = tidied (read_history stmt)

  -- `while (sqlite3_step(stmt) == SQLITE_ROW) { ... histories.push_back(history); }`
  fetch :
      (S.Stmt → Result (History F.Float)) → ℕ → S.Stmt → Exec S.Connection (List (History F.Float))
  fetch read zero stmt db = raise no_fuel db
  fetch read (suc fuel) stmt db =
      let (code, stmt', db') = S.step db stmt in
      elim code [
        | row ↦ elim (read stmt') [
          | ok h ↦ (do rest ← fetch read fuel stmt'; pure (h ∷ rest)) db'
          | fault f ↦ raise f db'
        ]
        | done ↦ (ok [], db')
        | failed ↦ (ok [], db')
      ]

  unfoldable pub get_histories : ℕ → ℤ → ℤ → Exec S.Connection (List (History F.Float))
  unfolding fetch read_history
  get_histories fuel limit offset db = elim (S.prepare db select_all_sql) [
    | none ↦ (ok [], db)
    | some stmt ↦ fetch read_history fuel (S.bind_int 2 offset (S.bind_int 1 limit stmt)) db
  ]

  unfoldable pub get_histories_by_event_type :
      ℕ → ℤ → ℤ → ℤ → Exec S.Connection (List (History F.Float))
  unfolding fetch read_history tidy
  get_histories_by_event_type fuel event_type limit offset db =
      elim (S.prepare db select_by_type_sql) [
        | none ↦ (ok [], db)
        | some stmt ↦
            fetch read_tidy fuel
              (S.bind_int 3 offset (S.bind_int 2 limit (S.bind_int 1 event_type stmt))) db
      ]

  unfoldable pub get_histories_by_date_range :
      ℕ → Text → Text → ℤ → ℤ → Exec S.Connection (List (History F.Float))
  unfolding fetch read_history tidy
  get_histories_by_date_range fuel start_date end_date limit offset db =
      elim (S.prepare db select_by_dates_sql) [
        | none ↦ (ok [], db)
        | some stmt ↦
            let dates = S.bind_text 2 (c_str end_date) (S.bind_text 1 (c_str start_date) stmt) in
            fetch read_tidy fuel (S.bind_int 4 offset (S.bind_int 3 limit dates)) db
      ]

  unfoldable pub get_histories_by_event_type_and_date_range :
      ℕ → ℤ → Text → Text → ℤ → ℤ → Exec S.Connection (List (History F.Float))
  unfolding fetch read_history tidy
  get_histories_by_event_type_and_date_range fuel event_type start_date end_date limit offset db =
      elim (S.prepare db select_by_type_and_dates_sql) [
        | none ↦ (ok [], db)
        | some stmt ↦
            let dates =
              S.bind_text 3 (c_str end_date)
                (S.bind_text 2 (c_str start_date) (S.bind_int 1 event_type stmt)) in
            fetch read_tidy fuel (S.bind_int 5 offset (S.bind_int 4 limit dates)) db
      ]

  unfoldable pub delete_history : ℤ → Exec S.Connection Bool
  delete_history id db = elim (S.prepare db delete_history_sql) [
    | none ↦ (ok false, db)
    | some stmt ↦
        let (code, _, db') = S.step db (S.bind_int 1 id stmt) in
        (ok (if is_done code then ltb 0 (S.changes db') else false), db')
  ]

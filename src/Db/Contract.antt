-- ===== src/Db/Contract.antt =====
-- What the repositories rely on SQLite for, as it documents the statements of this program: the
-- rows of the two tables, and what each statement yields or writes on a database that is neither
-- locked nor full. A column declared DATETIME has numeric affinity, so a date that reads as a
-- number is not stored as it was bound; the contract speaks of other dates only.
pub mod Limits
pub mod Outcomes
pub mod Columns
use mathlib.Core.List.{Perm}
use raspi_cctv_tcp_server.Prelude.{
  ℕ, ◌<◌, ◌≤◌, Option, none, some, Bool, true, false, not, ◌&&◌, List, [], ◌∷◌, ◌++◌, map, Text, ℤ,
  pos, ◌≡◌, length, take, drop, find, filter, text_eq, has_char, eq_ℤ, All, ◌-◌, if◌then◌else◌,
}
use raspi_cctv_tcp_server.Db.Sqlite.{Sqlite, row, done, failed}
use raspi_cctv_tcp_server.Db.Model.{User}
use raspi_cctv_tcp_server.Db.Users.{
  insert_user_sql, select_by_email_sql, select_by_id_sql, update_password_sql, delete_user_sql,
}
use raspi_cctv_tcp_server.Db.Histories.{
  insert_history_sql, select_all_sql, select_by_type_sql, select_by_dates_sql,
  select_by_type_and_dates_sql, delete_history_sql,
}

abbrev pub has_email : Text → User → Bool
has_email e u = text_eq u.email e

abbrev pub has_id : ℤ → User → Bool
has_id i u = eq_ℤ u.id i

abbrev pub set_password : ℤ → Text → User → User
set_password i h u = if has_id i u then record u { password_hash = h } else u

-- A row of `history`: only the snapshots and the speed may be NULL.
pub record Row (Double : Type 0) : Type 0 where
  pub id : ℤ
  pub date : Text
  pub image_path : Text
  pub plate_number : Text
  pub event_type : ℤ
  pub start_snapshot : Option Text
  pub end_snapshot : Option Text
  pub speed : Option Double

module _ {D : Type 0} (S : Sqlite D) where
  -- Stepping a statement yields these rows and then SQLITE_DONE, and writes nothing.
  abbrev pub Yields : {A : Type 0} → (S.Stmt → A → Type 0) → S.Connection → S.Stmt → List A → Type 0
  Yields Shows db stmt [] = (stmt' : S.Stmt) × (S.step db stmt ≡ (done, stmt', db))
  Yields Shows db stmt (a ∷ more) =
      (stmt' : S.Stmt) × (S.step db stmt ≡ (row, stmt', db))
      × Shows stmt' a
      × Yields Shows db stmt' more

  abbrev pub ShowsUser : S.Stmt → User → Type 0
  ShowsUser stmt u =
      (S.column_int stmt 0 ≡ u.id)
      × (S.column_text stmt 1 ≡ some u.email)
      × (S.column_text stmt 2 ≡ some u.password_hash)
      × (S.column_text stmt 3 ≡ some u.created_at)

  abbrev pub ShowsSpeed : S.Stmt → Option D → Type 0
  ShowsSpeed stmt none = S.column_is_null stmt 7 ≡ true
  ShowsSpeed stmt (some v) = (S.column_is_null stmt 7 ≡ false) × (S.column_double stmt 7 ≡ v)

  abbrev pub ShowsRow : S.Stmt → Row D → Type 0
  ShowsRow stmt r =
      (S.column_int stmt 0 ≡ r.id)
      × (S.column_text stmt 1 ≡ some r.date)
      × (S.column_text stmt 2 ≡ some r.image_path)
      × (S.column_text stmt 3 ≡ some r.plate_number)
      × (S.column_int stmt 4 ≡ r.event_type)
      × (S.column_text stmt 5 ≡ r.start_snapshot)
      × (S.column_text stmt 6 ≡ r.end_snapshot)
      × ShowsSpeed stmt r.speed

  abbrev pub bind_user : Text → Text → Text → S.Stmt → S.Stmt
  bind_user e h c stmt = S.bind_text 3 c (S.bind_text 2 h (S.bind_text 1 e stmt))

  abbrev pub bind_value : Option D → S.Stmt → S.Stmt
  bind_value none stmt = S.bind_null 7 stmt
  bind_value (some v) stmt = S.bind_double 7 v stmt

  abbrev pub bind_row : Text → Text → Text → ℤ → Text → Text → Option D → S.Stmt → S.Stmt
  bind_row d i p t s e v stmt = bind_value v (
      S.bind_text 6 e (
        S.bind_text 5 s
          (S.bind_int 4 t (S.bind_text 3 p (S.bind_text 2 i (S.bind_text 1 d stmt))))))

  -- The tables that a connection sees, and the order of `ORDER BY date DESC`.
  pub record Tables : Type 0 where
    pub users : S.Connection → List User
    pub rows : S.Connection → List (Row D)
    pub reads_as_number : Text → Bool
    -- date <= date, as the column's collation compares
    pub date_le : Text → Text → Bool
    pub newest_first : List (Row D) → List (Row D)

  module _ (T : Tables) where
    open T use {users, rows, reads_as_number, date_le, newest_first}

    abbrev pub KeepsRows : S.Connection → S.Connection → Type 0
    KeepsRows db db' = rows db' ≡ rows db

    abbrev pub KeepsUsers : S.Connection → S.Connection → Type 0
    KeepsUsers db db' = users db' ≡ users db

    -- A write by a statement that was prepared from a text and bound.
    abbrev pub Writes : S.Connection → S.Stmt → (S.Connection → Type 0) → Type 0
    Writes db stmt After =
        (stmt' : S.Stmt) × (db' : S.Connection) × (S.step db stmt ≡ (done, stmt', db')) × After db'

    abbrev pub in_range : Text → Text → Row D → Bool
    in_range a b r = date_le a r.date && date_le r.date b

    abbrev pub of_type : ℤ → Row D → Bool
    of_type t r = eq_ℤ r.event_type t

    -- `ORDER BY date DESC LIMIT ? OFFSET ?` over the rows that a condition admits
    abbrev pub page : (Row D → Bool) → ℕ → ℕ → S.Connection → List (Row D)
    page p limit offset db = take limit (drop offset (newest_first (filter p (rows db))))

    pub record UserStatements : Type 0 where
      pub select_by_email :
          (db : S.Connection) (e : Text)
          → (stmt : S.Stmt) × (S.prepare db select_by_email_sql ≡ some stmt)
            × Yields ShowsUser db (S.bind_text 1 e stmt) (filter (has_email e) (users db))
      pub select_by_id :
          (db : S.Connection) (i : ℤ)
          → (stmt : S.Stmt) × (S.prepare db select_by_id_sql ≡ some stmt)
            × Yields ShowsUser db (S.bind_int 1 i stmt) (filter (has_id i) (users db))
      -- a new key that no row has
      pub next_id : S.Connection → ℤ
      pub next_id_fresh : (db : S.Connection) → find (has_id (next_id db)) (users db) ≡ none
      pub insert :
          (db : S.Connection) (e h c : Text)
          → find (has_email e) (users db) ≡ none
          → reads_as_number c ≡ false
          → (stmt : S.Stmt) × (S.prepare db insert_user_sql ≡ some stmt)
            × Writes db (bind_user e h c stmt) λ db'.
              (users db'
                ≡ users db
                  ++ record { id = next_id db; email = e; password_hash = h; created_at = c } ∷ [])
              × KeepsRows db db'
      -- email is UNIQUE
      pub insert_taken :
          (db : S.Connection) (e h c : Text) (u : User)
          → find (has_email e) (users db) ≡ some u
          → (stmt : S.Stmt) × (S.prepare db insert_user_sql ≡ some stmt)
            × (stmt' : S.Stmt) × (S.step db (bind_user e h c stmt) ≡ (failed, stmt', db))
      pub update :
          (db : S.Connection) (i : ℤ) (h : Text)
          → (stmt : S.Stmt) × (S.prepare db update_password_sql ≡ some stmt)
            × Writes db
                (S.bind_int 2 i (S.bind_text 1 h stmt))
                λ db'. (users db' ≡ map (set_password i h) (users db)) × KeepsRows db db'
      pub delete :
          (db : S.Connection) (i : ℤ)
          → (stmt : S.Stmt) × (S.prepare db delete_user_sql ≡ some stmt)
            × Writes db (S.bind_int 1 i stmt) λ db'.
              (users db' ≡ filter (λ u. not (has_id i u)) (users db))
              × (S.changes db' ≡ length (users db) - length (users db'))
              × KeepsRows db db'

    -- `ORDER BY date DESC`
    abbrev pub IsNewestFirst : List (Row D) → Type 0
    IsNewestFirst [] = Unit
    IsNewestFirst (r ∷ rs) = All (λ q. date_le q.date r.date ≡ true) rs × IsNewestFirst rs

    abbrev pub Pages : S.Connection → S.Stmt → List (Row D) → Type 0
    Pages = Yields ShowsRow

    pub record HistoryStatements : Type 0 where
      pub newest_first-perm : (l : List (Row D)) → Perm (newest_first l) l
      pub newest_first-IsNewestFirst : (l : List (Row D)) → IsNewestFirst (newest_first l)
      pub next_row : S.Connection → ℤ
      pub insert :
          (db : S.Connection) (d i p : Text) (t : ℤ) (s e : Text) (v : Option D)
          → reads_as_number d ≡ false
          → (stmt : S.Stmt) × (S.prepare db insert_history_sql ≡ some stmt)
            × Writes db (bind_row d i p t s e v stmt) λ db'.
              (rows db'
                ≡ rows db
                  ++ record {
                    id = next_row db;
                    date = d;
                    image_path = i;
                    plate_number = p;
                    event_type = t;
                    start_snapshot = some s;
                    end_snapshot = some e;
                    speed = v;
                  }
                    ∷ [])
              × KeepsUsers db db'
      pub select_all :
          (db : S.Connection) (limit offset : ℕ)
          → (stmt : S.Stmt) × (S.prepare db select_all_sql ≡ some stmt)
            × Pages db
                (S.bind_int 2 (pos offset) (S.bind_int 1 (pos limit) stmt))
                (page (λ _. true) limit offset db)
      pub select_by_type :
          (db : S.Connection) (t : ℤ) (limit offset : ℕ)
          → (stmt : S.Stmt) × (S.prepare db select_by_type_sql ≡ some stmt)
            × Pages db
                (S.bind_int 3 (pos offset) (S.bind_int 2 (pos limit) (S.bind_int 1 t stmt)))
                (page (of_type t) limit offset db)
      pub select_by_dates :
          (db : S.Connection) (a b : Text) (limit offset : ℕ)
          → reads_as_number a ≡ false
          → reads_as_number b ≡ false
          → (stmt : S.Stmt) × (S.prepare db select_by_dates_sql ≡ some stmt)
            × Pages db
                (S.bind_int 4
                  (pos offset)
                  (S.bind_int 3 (pos limit) (S.bind_text 2 b (S.bind_text 1 a stmt))))
                (page (in_range a b) limit offset db)
      pub select_by_type_and_dates :
          (db : S.Connection) (t : ℤ) (a b : Text) (limit offset : ℕ)
          → reads_as_number a ≡ false
          → reads_as_number b ≡ false
          → (stmt : S.Stmt) × (S.prepare db select_by_type_and_dates_sql ≡ some stmt)
            × Pages db
                (S.bind_int 5 (pos offset) (
                  S.bind_int 4
                    (pos limit)
                    (S.bind_text 3 b (S.bind_text 2 a (S.bind_int 1 t stmt)))))
                (page (λ r. of_type t r && in_range a b r) limit offset db)
      pub delete :
          (db : S.Connection) (i : ℤ)
          → (stmt : S.Stmt) × (S.prepare db delete_history_sql ≡ some stmt)
            × Writes db (S.bind_int 1 i stmt) λ db'.
              (rows db' ≡ filter (λ r. not (eq_ℤ r.id i)) (rows db))
              × (S.changes db' ≡ length (rows db) - length (rows db'))
              × KeepsUsers db db'
      -- a literal number has no colon
      pub colon_is_text : (d : Text) → has_char b':' d ≡ true → reads_as_number d ≡ false

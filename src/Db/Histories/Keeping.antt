-- ===== src/Db/Histories/Keeping.antt =====
-- What the methods on the history leave of the tables, whatever SQLite's calls return.
use raspi_cctv_tcp_server.Prelude.{
  ℕ, zero, suc, Option-cases, [], ◌∷◌, ◌++◌, Text, ℤ, c_str, ◌≡◌, ◌⊎◌, inl, inr, refl, ◌∙◌,
}
use raspi_cctv_tcp_server.Exec.{Result, pure}
use raspi_cctv_tcp_server.Exec.Fuel.{Result-cases}
use raspi_cctv_tcp_server.Exec.Keeping.{continue-Keeps}
use raspi_cctv_tcp_server.Floats.{Floats}
use raspi_cctv_tcp_server.Db.Model.{History}
use raspi_cctv_tcp_server.Db.Sqlite.{Sqlite}
use raspi_cctv_tcp_server.Db.Contract.{Row, Tables, KeepsRows, KeepsUsers}
use raspi_cctv_tcp_server.Db.Contract.Outcomes.{
  Outcomes, all_rows, rows_by_type, rows_by_dates, rows_by_type_and_dates,
}
use raspi_cctv_tcp_server.Db.Users.Keeping.{SameTables}
use raspi_cctv_tcp_server.Db.Histories.Queries.{widened, bind_speed-widened}
use raspi_cctv_tcp_server.Db.Histories.Steps.{StepCode-cases}
use raspi_cctv_tcp_server.Db.Histories.{
  insert_history_sql, select_all_sql, select_by_type_sql, select_by_dates_sql,
  select_by_type_and_dates_sql, read_history, read_tidy, fetch, create_history, get_histories,
  get_histories_by_event_type, get_histories_by_date_range,
  get_histories_by_event_type_and_date_range,
}

module _ (F : Floats) (S : Sqlite F.Double) (T : Tables S) (outcomes : Outcomes S T) where
  open T use {users, rows}

  fetch-SameTables :
      (read : S.Stmt → Result (History F.Float)) (fuel : ℕ) (stmt : S.Stmt) (db db0 : S.Connection)
      → outcomes.Reads stmt
      → SameTables S T outcomes db0 db
      → SameTables S T outcomes db0 (fetch F S read fuel stmt db).1
  unfolding fetch
  fetch-SameTables read zero stmt db db0 reads same = same
  fetch-SameTables read (suc fuel) stmt db db0 reads (us0, rs0) =
      let o = S.step db stmt in
      let (again, us, rs) = outcomes.step-Reads db o.2 stmt o.1 o.0 reads refl in
      let same : SameTables S T outcomes db0 o.2 = (us ∙ us0, rs ∙ rs0) in
      elim (StepCode-cases o.0) [
        | inr (inl e) ↦ rw (e, fetch) same
        | inr (inr e) ↦ rw (e, fetch) same
        | inl e ↦ elim (Result-cases (read o.1)) [
          | inl (h, good) ↦
              rw (e, fetch, good)
                (continue-Keeps (SameTables S T outcomes db0) (λ rest. pure (h ∷ rest))
                  (fetch F S read fuel o.1 o.2) (fetch-SameTables read fuel o.1 o.2 db0 again same)
                  (λ rest s k. k))
          | inr (f, bad) ↦ rw (e, fetch, bad) same
        ]
      ]

  module _ (fuel : ℕ) (limit offset : ℤ) (db : S.Connection) where
    pub get_histories-SameTables :
        SameTables S T outcomes db (get_histories F S fuel limit offset db).1
    unfolding get_histories
    get_histories-SameTables = elim (Option-cases (S.prepare db select_all_sql)) [
      | inl e ↦ rw (e, get_histories) (refl, refl)
      | inr (stmt, e) ↦
          rw (e, get_histories)
            (fetch-SameTables (read_history F S) fuel _ db db
              (outcomes.bind_int-Reads _ _ _
                (outcomes.bind_int-Reads _ _ stmt (outcomes.prepare-Reads all_rows db stmt e)))
              (refl, refl))
    ]

    pub get_histories_by_event_type-SameTables :
        (t : ℤ)
        → SameTables S T outcomes db (get_histories_by_event_type F S fuel t limit offset db).1
    unfolding get_histories_by_event_type
    get_histories_by_event_type-SameTables t =
        elim (Option-cases (S.prepare db select_by_type_sql)) [
          | inl e ↦ rw (e, get_histories_by_event_type) (refl, refl)
          | inr (stmt, e) ↦
              rw (e, get_histories_by_event_type)
                (fetch-SameTables (read_tidy F S) fuel _ db db
                  (outcomes.bind_int-Reads _ _ _ (
                    outcomes.bind_int-Reads _ _ _ (
                      outcomes.bind_int-Reads _ _ stmt
                        (outcomes.prepare-Reads rows_by_type db stmt e))))
                  (refl, refl))
        ]

    pub get_histories_by_date_range-SameTables :
        (a b : Text)
        → SameTables S T outcomes db (get_histories_by_date_range F S fuel a b limit offset db).1
    unfolding get_histories_by_date_range
    get_histories_by_date_range-SameTables a b =
        elim (Option-cases (S.prepare db select_by_dates_sql)) [
          | inl e ↦ rw (e, get_histories_by_date_range) (refl, refl)
          | inr (stmt, e) ↦
              rw (e, get_histories_by_date_range)
                (fetch-SameTables (read_tidy F S) fuel _ db db
                  (outcomes.bind_int-Reads _ _ _ (
                    outcomes.bind_int-Reads _ _ _ (
                      outcomes.bind_text-Reads _ _ _ (
                        outcomes.bind_text-Reads _ _ stmt
                          (outcomes.prepare-Reads rows_by_dates db stmt e)))))
                  (refl, refl))
        ]

    pub get_histories_by_event_type_and_date_range-SameTables :
        (t : ℤ) (a b : Text)
        → SameTables S T outcomes db
            (get_histories_by_event_type_and_date_range F S fuel t a b limit offset db).1
    unfolding get_histories_by_event_type_and_date_range
    get_histories_by_event_type_and_date_range-SameTables t a b =
        elim (Option-cases (S.prepare db select_by_type_and_dates_sql)) [
          | inl e ↦ rw (e, get_histories_by_event_type_and_date_range) (refl, refl)
          | inr (stmt, e) ↦
              rw (e, get_histories_by_event_type_and_date_range)
                (fetch-SameTables (read_tidy F S) fuel _ db db
                  (outcomes.bind_int-Reads _ _ _ (
                    outcomes.bind_int-Reads _ _ _ (
                      outcomes.bind_text-Reads _ _ _ (
                        outcomes.bind_text-Reads _ _ _ (
                          outcomes.bind_int-Reads _ _ stmt
                            (outcomes.prepare-Reads rows_by_type_and_dates db stmt e))))))
                  (refl, refl))
        ]

  -- The history is as it was, or has one row more, of the event's type and speed.
  abbrev pub RowStep : History F.Float → S.Connection → S.Connection → Type 0
  RowStep h db db' =
      (KeepsRows S T db db'
        ⊎ ((r : Row F.Double) × (r.event_type ≡ h.event_type)
            × (r.speed ≡ widened F h.speed)
            × (rows db' ≡ rows db ++ r ∷ [])))
      × KeepsUsers S T db db'

  pub create_history-RowStep :
      (h : History F.Float) (db : S.Connection) → RowStep h db (create_history F S h db).1
  unfolding create_history
  create_history-RowStep h db = elim (Option-cases (S.prepare db insert_history_sql)) [
    | inl e ↦ rw (e, create_history) (inl refl, refl)
    | inr (stmt, e) ↦
        rw (e, create_history, bind_speed-widened F S h.speed)
          (outcomes.step-insert_history db _ stmt _ _ (c_str h.date) (c_str h.image_path)
            (c_str h.plate_number) h.event_type (c_str h.start_snapshot) (c_str h.end_snapshot)
            (widened F h.speed) e refl)
  ]

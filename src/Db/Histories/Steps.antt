-- ===== src/Db/Histories/Steps.antt =====
-- A query's loop has enough fuel, and ends as reading its rows does.
use raspi_cctv_tcp_server.Prelude.{
  ℕ, zero, suc, ◌<◌, Option, none, some, Option-cases, Text, ℤ, pos, c_str, ◌≡◌, ◌⊎◌, ◌∷◌, ap, refl,
  arith, inl, inr,
}
use raspi_cctv_tcp_server.Exec.{Result, Fault, ok, fault, pure}
use raspi_cctv_tcp_server.Exec.Fuel.{
  Fuelled, IsReal, EndsIn, AlwaysEndsIn, continue-EndsIn, Result-cases,
}
use raspi_cctv_tcp_server.Floats.{Floats}
use raspi_cctv_tcp_server.Db.Model.{History}
use raspi_cctv_tcp_server.Db.Sqlite.{Sqlite, StepCode, row, done, failed}
use raspi_cctv_tcp_server.Db.Contract.Limits.{RowLimits}
use raspi_cctv_tcp_server.Db.Contract.Outcomes.{
  Query, query_sql, all_rows, rows_by_type, rows_by_dates, rows_by_type_and_dates,
}
use raspi_cctv_tcp_server.Db.Histories.{
  history_of, tidied, read_history, read_tidy, fetch, get_histories, get_histories_by_event_type,
  get_histories_by_date_range, get_histories_by_event_type_and_date_range, create_history,
  insert_history_sql, select_all_sql, select_by_type_sql, select_by_dates_sql,
  select_by_type_and_dates_sql,
}

pub StepCode-cases : (c : StepCode) → (c ≡ row) ⊎ (c ≡ done) ⊎ (c ≡ failed)
StepCode-cases row = inl refl
StepCode-cases done = inr (inl refl)
StepCode-cases failed = inr (inr refl)

module _ (F : Floats) (S : Sqlite F.Double) where
  history_of-Fuelled :
      (id : ℤ) (d i p : Option Text) (t : ℤ) (s e : Text) (v : Option F.Float)
      → Fuelled (history_of id d i p t s e v)
  history_of-Fuelled id (some d) (some i) (some p) t s e v = tt
  history_of-Fuelled id none i p t s e v = tt
  history_of-Fuelled id (some d) none p t s e v = tt
  history_of-Fuelled id (some d) (some i) none t s e v = tt

  read_history-Fuelled : (stmt : S.Stmt) → Fuelled (read_history F S stmt)
  unfolding read_history
  read_history-Fuelled stmt =
      history_of-Fuelled _ (S.column_text stmt 1) (S.column_text stmt 2) (S.column_text stmt 3) _ _
        _ _

  -- How reading a row ends, given what a query's statement is.
  pub record RowReads (Q : Fault → Type 0) : Type 1 where
    pub Reads : S.Stmt → Type 0
    pub prepare-Reads :
        (q : Query) (db : S.Connection) (stmt : S.Stmt)
        → S.prepare db (query_sql q) ≡ some stmt
        → Reads stmt
    pub bind_text-Reads :
        (i : ℕ) (t : Text) (stmt : S.Stmt) → Reads stmt → Reads (S.bind_text i t stmt)
    pub bind_int-Reads : (i : ℕ) (n : ℤ) (stmt : S.Stmt) → Reads stmt → Reads (S.bind_int i n stmt)
    pub step-Reads :
        (db db' : S.Connection) (stmt stmt' : S.Stmt)
        → Reads stmt
        → S.step db stmt ≡ (row, stmt', db')
        → Reads stmt' × EndsIn Q (read_history F S stmt')

  -- Whatever the rows hold, reading them does not run out of fuel.
  pub IsReal-RowReads : RowReads IsReal
  IsReal-RowReads = record {
    Reads = λ stmt. Unit;
    prepare-Reads = λ q db stmt e. tt;
    bind_text-Reads = λ i t stmt h. h;
    bind_int-Reads = λ i n stmt h. h;
    step-Reads = λ db db' stmt stmt' h e. (tt, read_history-Fuelled stmt');
  }

  module _ (Q : Fault → Type 0) where
    tidied-EndsIn : (r : Result (History F.Float)) → EndsIn Q r → EndsIn Q (tidied r)
    tidied-EndsIn (ok h) k = tt
    tidied-EndsIn (fault f) k = k

    module _ (limits : RowLimits S) (rows : RowReads Q) (read : S.Stmt → Result (History F.Float))
        (reads : (stmt : S.Stmt) → EndsIn Q (read_history F S stmt) → EndsIn Q (read stmt)) where
      open limits use {remaining}

      fetch-EndsIn :
          (fuel : ℕ) (stmt : S.Stmt) (db : S.Connection)
          → rows.Reads stmt
          → remaining db stmt < fuel
          → EndsIn Q (fetch F S read fuel stmt db).0
      unfolding fetch
      fetch-EndsIn zero stmt db query enough = elim enough [ ]
      fetch-EndsIn (suc fuel) stmt db query enough =
          let o = S.step db stmt in
          elim (StepCode-cases o.0) [
            | inr (inl e) ↦ rw (e, fetch) tt
            | inr (inr e) ↦ rw (e, fetch) tt
            | inl e ↦
                let stepped : S.step db stmt ≡ (row, o.1, o.2) = ap (λ c. (c, o.1, o.2)) e in
                let fewer : remaining o.2 o.1 < remaining db stmt =
                  limits.step-row db o.2 stmt o.1 stepped in
                let (query', ends) = rows.step-Reads db o.2 stmt o.1 query stepped in
                elim (Result-cases (read o.1)) [
                  | inl (h, good) ↦
                      rw (e, fetch, good)
                        (continue-EndsIn Q (λ rest. pure (h ∷ rest)) (fetch F S read fuel o.1 o.2)
                          (fetch-EndsIn fuel o.1 o.2 query' (omega arith)) (λ rest s. tt))
                  | inr (f, bad) ↦ rw (e, fetch, bad) (rw bad at (reads o.1 ends))
                ]
          ]

  -- With one unit of fuel more than the limit, a query ends as reading its rows does, whatever the
  -- offset.
  module _ (Q : Fault → Type 0) (limits : RowLimits S) (rows : RowReads Q) (limit : ℕ)
      (offset : ℤ) where
    pub get_histories-EndsIn : AlwaysEndsIn Q (get_histories F S (suc limit) (pos limit) offset)
    unfolding get_histories
    get_histories-EndsIn db = elim (Option-cases (S.prepare db select_all_sql)) [
      | inl e ↦ rw (e, get_histories) tt
      | inr (stmt, e) ↦
          rw (e, get_histories)
            (fetch-EndsIn Q limits rows (read_history F S) (λ s h. h) (suc limit) _ db
              (rows.bind_int-Reads _ _ _
                (rows.bind_int-Reads _ _ _ (rows.prepare-Reads all_rows db stmt e)))
              (omega (arith, limits.select_all db stmt limit offset e)))
    ]

    pub get_histories_by_event_type-EndsIn :
        (t : ℤ) → AlwaysEndsIn Q (get_histories_by_event_type F S (suc limit) t (pos limit) offset)
    unfolding get_histories_by_event_type
    get_histories_by_event_type-EndsIn t db =
        elim (Option-cases (S.prepare db select_by_type_sql)) [
          | inl e ↦ rw (e, get_histories_by_event_type) tt
          | inr (stmt, e) ↦
              rw (e, get_histories_by_event_type)
                (fetch-EndsIn Q limits rows (read_tidy F S) (λ s h. tidied-EndsIn Q _ h) (suc limit)
                  _ db
                  (rows.bind_int-Reads _ _ _ (
                    rows.bind_int-Reads _ _ _
                      (rows.bind_int-Reads _ _ _ (rows.prepare-Reads rows_by_type db stmt e))))
                  (omega (arith, limits.select_by_type db stmt t limit offset e)))
        ]

    pub get_histories_by_date_range-EndsIn :
        (a b : Text)
        → AlwaysEndsIn Q (get_histories_by_date_range F S (suc limit) a b (pos limit) offset)
    unfolding get_histories_by_date_range
    get_histories_by_date_range-EndsIn a b db =
        elim (Option-cases (S.prepare db select_by_dates_sql)) [
          | inl e ↦ rw (e, get_histories_by_date_range) tt
          | inr (stmt, e) ↦
              rw (e, get_histories_by_date_range)
                (fetch-EndsIn Q limits rows (read_tidy F S) (λ s h. tidied-EndsIn Q _ h) (suc limit)
                  _ db
                  (rows.bind_int-Reads _ _ _ (
                    rows.bind_int-Reads _ _ _ (
                      rows.bind_text-Reads _ _ _
                        (rows.bind_text-Reads _ _ _ (rows.prepare-Reads rows_by_dates db stmt e)))))
                  (omega
                    (arith, limits.select_by_dates db stmt (c_str a) (c_str b) limit offset e)))
        ]

    pub get_histories_by_event_type_and_date_range-EndsIn :
        (t : ℤ) (a b : Text)
        → AlwaysEndsIn Q
            (get_histories_by_event_type_and_date_range F S (suc limit) t a b (pos limit) offset)
    unfolding get_histories_by_event_type_and_date_range
    get_histories_by_event_type_and_date_range-EndsIn t a b db =
        elim (Option-cases (S.prepare db select_by_type_and_dates_sql)) [
          | inl e ↦ rw (e, get_histories_by_event_type_and_date_range) tt
          | inr (stmt, e) ↦
              rw (e, get_histories_by_event_type_and_date_range)
                (fetch-EndsIn Q limits rows (read_tidy F S) (λ s h. tidied-EndsIn Q _ h) (suc limit)
                  _ db
                  (rows.bind_int-Reads _ _ _ (
                    rows.bind_int-Reads _ _ _ (
                      rows.bind_text-Reads _ _ _ (
                        rows.bind_text-Reads _ _ _ (
                          rows.bind_int-Reads _ _ _
                            (rows.prepare-Reads rows_by_type_and_dates db stmt e))))))
                  (omega (
                    arith,
                    limits.select_by_type_and_dates db stmt t (c_str a) (c_str b) limit offset e,
                  )))
        ]

  pub create_history-EndsIn :
      (Q : Fault → Type 0) (h : History F.Float) → AlwaysEndsIn Q (create_history F S h)
  unfolding create_history
  create_history-EndsIn Q h db = elim (Option-cases (S.prepare db insert_history_sql)) [
    | inl e ↦ rw (e, create_history) tt
    | inr (stmt, e) ↦ rw (e, create_history) tt
  ]

-- ===== src/Db/Histories/Bounds.antt =====
-- How many rows a query returns.
use raspi_cctv_tcp_server.Prelude.{
  ℕ, zero, suc, ◌≤◌, List, ◌∷◌, Option-cases, Text, ℤ, pos, c_str, ap, arith, length, inl, inr,
}
use raspi_cctv_tcp_server.Exec.{Result, ok, fault, continue, pure}
use raspi_cctv_tcp_server.Exec.Fuel.{Result-cases}
use raspi_cctv_tcp_server.Floats.{Floats}
use raspi_cctv_tcp_server.Db.Model.{History}
use raspi_cctv_tcp_server.Db.Sqlite.{Sqlite}
use raspi_cctv_tcp_server.Db.Contract.Limits.{RowLimits}
use raspi_cctv_tcp_server.Db.Histories.{
  read_history, read_tidy, fetch, get_histories, get_histories_by_event_type,
  get_histories_by_date_range, get_histories_by_event_type_and_date_range, select_all_sql,
  select_by_type_sql, select_by_dates_sql, select_by_type_and_dates_sql,
}
use raspi_cctv_tcp_server.Db.Histories.Steps.{StepCode-cases}

-- A list that was returned has at most n elements.
abbrev pub AtMost : {A S : Type 0} → ℕ → Result (List A) × S → Type 0
AtMost n (ok xs, s) = length xs ≤ n
AtMost n (fault f, s) = Unit

AtMost-more : {A S : Type 0} (m n : ℕ) (o : Result (List A) × S) → m ≤ n → AtMost m o → AtMost n o
AtMost-more m n (ok xs, s) h k = omega arith
AtMost-more m n (fault f, s) h k = tt

AtMost-cons :
    {A S : Type 0} (n : ℕ) (a : A) (o : Result (List A) × S)
    → AtMost n o
    → AtMost (suc n) (continue (λ rest. pure (a ∷ rest)) o)
AtMost-cons n a (ok xs, s) k = omega arith
AtMost-cons n a (fault f, s) k = tt

module _ (F : Floats) (S : Sqlite F.Double) (limits : RowLimits S) where
  open limits use {remaining}

  fetch-AtMost :
      (read : S.Stmt → Result (History F.Float)) (fuel : ℕ) (stmt : S.Stmt) (db : S.Connection)
      → AtMost (remaining db stmt) (fetch F S read fuel stmt db)
  unfolding fetch
  fetch-AtMost read zero stmt db = tt
  fetch-AtMost read (suc fuel) stmt db =
      let o = S.step db stmt in
      elim (StepCode-cases o.0) [
        | inr (inl e) ↦ rw (e, fetch) (omega arith)
        | inr (inr e) ↦ rw (e, fetch) (omega arith)
        | inl e ↦
            let fewer : suc (remaining o.2 o.1) ≤ remaining db stmt =
              limits.step-row db o.2 stmt o.1 (ap (λ c. (c, o.1, o.2)) e) in
            elim (Result-cases (read o.1)) [
              | inr (f, bad) ↦ rw (e, fetch, bad) tt
              | inl (h, good) ↦
                  rw (e, fetch, good)
                    (AtMost-more _ _ _ fewer (
                      AtMost-cons _ h (fetch F S read fuel o.1 o.2)
                        (fetch-AtMost read fuel o.1 o.2)))
            ]
      ]

  module _ (fuel limit : ℕ) (offset : ℤ) (db : S.Connection) where
    all-AtMost : AtMost limit (get_histories F S fuel (pos limit) offset db)
    unfolding get_histories
    all-AtMost = elim (Option-cases (S.prepare db select_all_sql)) [
      | inl e ↦ rw (e, get_histories) (omega arith)
      | inr (stmt, e) ↦
          rw (e, get_histories)
            (AtMost-more _ limit _ (limits.select_all db stmt limit offset e)
              (fetch-AtMost (read_history F S) fuel _ db))
    ]

    by_type-AtMost :
        (t : ℤ) → AtMost limit (get_histories_by_event_type F S fuel t (pos limit) offset db)
    unfolding get_histories_by_event_type
    by_type-AtMost t = elim (Option-cases (S.prepare db select_by_type_sql)) [
      | inl e ↦ rw (e, get_histories_by_event_type) (omega arith)
      | inr (stmt, e) ↦
          rw (e, get_histories_by_event_type)
            (AtMost-more _ limit _ (limits.select_by_type db stmt t limit offset e)
              (fetch-AtMost (read_tidy F S) fuel _ db))
    ]

    by_dates-AtMost :
        (a b : Text) → AtMost limit (get_histories_by_date_range F S fuel a b (pos limit) offset db)
    unfolding get_histories_by_date_range
    by_dates-AtMost a b = elim (Option-cases (S.prepare db select_by_dates_sql)) [
      | inl e ↦ rw (e, get_histories_by_date_range) (omega arith)
      | inr (stmt, e) ↦
          rw (e, get_histories_by_date_range)
            (AtMost-more _ limit _
              (limits.select_by_dates db stmt (c_str a) (c_str b) limit offset e)
              (fetch-AtMost (read_tidy F S) fuel _ db))
    ]

    by_type_and_dates-AtMost :
        (t : ℤ) (a b : Text)
        → AtMost limit
            (get_histories_by_event_type_and_date_range F S fuel t a b (pos limit) offset db)
    unfolding get_histories_by_event_type_and_date_range
    by_type_and_dates-AtMost t a b =
        elim (Option-cases (S.prepare db select_by_type_and_dates_sql)) [
          | inl e ↦ rw (e, get_histories_by_event_type_and_date_range) (omega arith)
          | inr (stmt, e) ↦
              rw (e, get_histories_by_event_type_and_date_range)
                (AtMost-more _ limit _
                  (limits.select_by_type_and_dates db stmt t (c_str a) (c_str b) limit offset e)
                  (fetch-AtMost (read_tidy F S) fuel _ db))
        ]

    -- When SQLite gives no more rows than a LIMIT asks for, none of the four queries returns more
    -- entries than the limit that it was called with, on any database, whatever the dates, the
    -- type, the offset and the fuel.
    pub queries-AtMost :
        (t : ℤ) (a b : Text)
        → AtMost limit (get_histories F S fuel (pos limit) offset db)
          × AtMost limit (get_histories_by_event_type F S fuel t (pos limit) offset db)
          × AtMost limit (get_histories_by_date_range F S fuel a b (pos limit) offset db)
          × AtMost limit
              (get_histories_by_event_type_and_date_range F S fuel t a b (pos limit) offset db)
    queries-AtMost t a b =
        (all-AtMost, by_type-AtMost t, by_dates-AtMost a b, by_type_and_dates-AtMost t a b)

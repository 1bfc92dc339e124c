-- ===== src/Db/Histories/Queries.antt =====
-- What the methods of `HistoryRepository` return and write, under SQLite's contract. A query makes
-- at most one step more than its limit, so that much fuel is enough.
use raspi_cctv_tcp_server.Prelude.{
  ℕ, zero, suc, ◌<◌, Option, none, some, Bool, true, false, ◌&&◌, List, [], ◌∷◌, ◌++◌, map, Text, ℤ,
  pos, ◌≡◌, refl, arith, length, length-take_le, drop, filter, c_str, if◌then◌else◌,
}
use raspi_cctv_tcp_server.Exec.{Result, ok}
use raspi_cctv_tcp_server.Floats.{Floats}
use raspi_cctv_tcp_server.Db.Sqlite.{Sqlite}
use raspi_cctv_tcp_server.Db.Model.{History}
use raspi_cctv_tcp_server.Db.Histories.{
  or_blank, tidy, create_history, bind_speed, read_history, read_tidy, fetch, get_histories,
  get_histories_by_event_type, get_histories_by_date_range,
  get_histories_by_event_type_and_date_range,
}
use raspi_cctv_tcp_server.Db.Contract.{
  Row, Tables, HistoryStatements, Yields, ShowsRow, ShowsSpeed, KeepsUsers, page, of_type, in_range,
  bind_value,
}

module _ (F : Floats) where
  abbrev narrowed : Option F.Double → Option F.Float
  narrowed none = none
  narrowed (some v) = some (F.narrow v)

  abbrev pub widened : Option F.Float → Option F.Double
  widened none = none
  widened (some v) = some (F.widen v)

  -- The struct that a row is read into.
  abbrev pub history_from : Row F.Double → History F.Float
  history_from r = record {
    date = r.date;
    image_path = r.image_path;
    plate_number = r.plate_number;
    event_type = r.event_type;
    start_snapshot = or_blank r.start_snapshot;
    end_snapshot = or_blank r.end_snapshot;
    speed = narrowed r.speed;
    id = r.id;
  }

  abbrev pub tidy_from : Row F.Double → History F.Float
  tidy_from r = tidy (history_from r)

module _ (F : Floats) (S : Sqlite F.Double) where
  speed_lem :
      (stmt : S.Stmt) (v : Option F.Double)
      → ShowsSpeed S stmt v
      → (if S.column_is_null stmt 7 then none else some (F.narrow (S.column_double stmt 7)))
        ≡ narrowed F v
  speed_lem stmt none h = rw h refl
  speed_lem stmt (some v) (h, e) = rw (h, e) refl

  read_history_lem :
      (stmt : S.Stmt) (r : Row F.Double)
      → ShowsRow S stmt r
      → read_history F S stmt ≡ ok (history_from F r)
  unfolding read_history
  read_history_lem stmt r (i, d, m, p, t, s, e, v) =
      rw (speed_lem stmt r.speed v, i, d, m, p, t, s, e) refl

  read_tidy_lem :
      (stmt : S.Stmt) (r : Row F.Double)
      → ShowsRow S stmt r
      → read_tidy F S stmt ≡ ok (tidy_from F r)
  read_tidy_lem stmt r h = rw (read_history_lem stmt r h) refl

  module _ (read : S.Stmt → Result (History F.Float)) (from : Row F.Double → History F.Float)
      (reads : (stmt : S.Stmt) (r : Row F.Double)
        → ShowsRow S stmt r
        → read stmt ≡ ok (from r)) where
    -- With more fuel than rows the loop ends by its test and returns every row.
    fetch_lem :
        (fuel : ℕ) (rs : List (Row F.Double)) (stmt : S.Stmt) (db : S.Connection)
        → length rs < fuel
        → Yields S (ShowsRow S) db stmt rs
        → fetch F S read fuel stmt db ≡ (ok (map from rs), db)
    unfolding fetch
    fetch_lem zero rs stmt db h y = elim h [ ]
    fetch_lem (suc fuel) [] stmt db h (stmt', e) = rw (e, fetch, e) refl
    fetch_lem (suc fuel) (r ∷ rs) stmt db h (stmt', e, shows, y) =
        let rest = fetch_lem fuel rs stmt' db (omega arith) y in ground (arith, reads stmt' r shows)

module _ (F : Floats) (S : Sqlite F.Double) where
  pub bind_speed-widened :
      (v : Option F.Float) (stmt : S.Stmt) → bind_speed F S v stmt ≡ bind_value S (widened F v) stmt
  unfolding bind_speed
  bind_speed-widened none stmt = refl
  bind_speed-widened (some v) stmt = refl

module _ (F : Floats) (S : Sqlite F.Double) (T : Tables S) (laws : HistoryStatements S T) where
  abbrev short_page :
      (p : Row F.Double → Bool) (limit offset fuel : ℕ) (db : S.Connection)
      → limit < fuel
      → length (page S T p limit offset db) < fuel
  short_page p limit offset fuel db h =
      omega (arith, length-take_le limit (drop offset (T.newest_first (filter p (T.rows db)))))

  module _ (fuel limit offset : ℕ) (db : S.Connection) (enough : limit < fuel) where
    pub get_histories_lem :
        get_histories F S fuel (pos limit) (pos offset) db
        ≡ (ok (map (history_from F) (page S T (λ _. true) limit offset db)), db)
    unfolding get_histories
    get_histories_lem =
        let (stmt, p, y) = laws.select_all db limit offset in
        rw
          (
            p,
            get_histories,
            fetch_lem F S _ (history_from F) (read_history_lem F S) fuel _ _ db
                (short_page (λ _. true) limit offset fuel db enough) y,
          )
          refl

    pub get_histories_by_event_type_lem :
        (t : ℤ)
        → get_histories_by_event_type F S fuel t (pos limit) (pos offset) db
          ≡ (ok (map (tidy_from F) (page S T (of_type S T t) limit offset db)), db)
    unfolding get_histories_by_event_type
    get_histories_by_event_type_lem t =
        let (stmt, p, y) = laws.select_by_type db t limit offset in
        rw
          (
            p,
            get_histories_by_event_type,
            fetch_lem F S _ (tidy_from F) (read_tidy_lem F S) fuel _ _ db
                (short_page (of_type S T t) limit offset fuel db enough) y,
          )
          refl

    module _ (a b : Text) (pa : T.reads_as_number (c_str a) ≡ false)
        (pb : T.reads_as_number (c_str b) ≡ false) where
      pub get_histories_by_date_range_lem :
          get_histories_by_date_range F S fuel a b (pos limit) (pos offset) db ≡ (
            ok (map (tidy_from F) (page S T (in_range S T (c_str a) (c_str b)) limit offset db)),
            db,
          )
      unfolding get_histories_by_date_range
      get_histories_by_date_range_lem =
          let (stmt, p, y) = laws.select_by_dates db (c_str a) (c_str b) limit offset pa pb in
          rw
            (
              p,
              get_histories_by_date_range,
              fetch_lem F S _ (tidy_from F) (read_tidy_lem F S) fuel _ _ db
                  (short_page (in_range S T (c_str a) (c_str b)) limit offset fuel db enough) y,
            )
            refl

      pub get_histories_by_event_type_and_date_range_lem :
          (t : ℤ)
          → get_histories_by_event_type_and_date_range F S fuel t a b (pos limit) (pos offset) db
            ≡ (
              ok (
                  map (tidy_from F) (
                    page S T
                      (λ r. of_type S T t r && in_range S T (c_str a) (c_str b) r)
                      limit
                      offset
                      db)),
              db,
            )
      unfolding get_histories_by_event_type_and_date_range
      get_histories_by_event_type_and_date_range_lem t =
          let (stmt, p, y) =
            laws.select_by_type_and_dates db t (c_str a) (c_str b) limit offset pa pb in
          rw
            (
              p,
              get_histories_by_event_type_and_date_range,
              fetch_lem F S _ (tidy_from F) (read_tidy_lem F S) fuel _ _ db
                  (short_page (λ r. of_type S T t r && in_range S T (c_str a) (c_str b) r) limit
                    offset fuel db enough)
                  y,
            )
            refl

  -- The row that an insertion writes.
  abbrev pub row_of : S.Connection → History F.Float → Row F.Double
  row_of db h = record {
    id = laws.next_row db;
    date = c_str h.date;
    image_path = c_str h.image_path;
    plate_number = c_str h.plate_number;
    event_type = h.event_type;
    start_snapshot = some (c_str h.start_snapshot);
    end_snapshot = some (c_str h.end_snapshot);
    speed = widened F h.speed;
  }

  abbrev pub LeavesRows :
      S.Connection → Bool → List (Row F.Double) → Result Bool × S.Connection → Type 0
  LeavesRows db b rs o = (o.0 ≡ ok b) × (T.rows o.1 ≡ rs) × KeepsUsers S T db o.1

  pub create_history_lem :
      (h : History F.Float) (db : S.Connection)
      → T.reads_as_number (c_str h.date) ≡ false
      → LeavesRows db true (T.rows db ++ row_of db h ∷ []) (create_history F S h db)
  unfolding create_history
  create_history_lem h db plain =
      let (stmt, p, (stmt', db', e, (rs, us))) =
        laws.insert db (c_str h.date) (c_str h.image_path) (c_str h.plate_number) h.event_type
          (c_str h.start_snapshot) (c_str h.end_snapshot) (widened F h.speed) plain in
      rw (p, create_history, bind_speed-widened F S h.speed, e) (refl, rs, us)

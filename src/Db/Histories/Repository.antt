-- ===== src/Db/Histories/Repository.antt =====
-- include/db/repository/HistoryRepository.hpp: what the handlers ask of the table of events, and
-- that src/db/HistoryRepository.cpp provides it.
use raspi_cctv_tcp_server.Prelude.{
  ℕ, suc, ◌&&◌, Bool, true, false, not, List, [], ◌∷◌, ◌++◌, map, Text, ℤ, pos, to_nat, ◌≡◌, arith,
  find, filter, c_str, is_none,
}
use raspi_cctv_tcp_server.Exec.{Exec, ok}
use raspi_cctv_tcp_server.Floats.{Floats}
use raspi_cctv_tcp_server.Db.Model.{History}
use raspi_cctv_tcp_server.Db.Sqlite.{Sqlite}
use raspi_cctv_tcp_server.Db.Contract.{Tables, HistoryStatements, page, of_type, in_range}
use raspi_cctv_tcp_server.Db.Histories
use raspi_cctv_tcp_server.Db.Histories.Queries.{
  history_from, tidy_from, row_of, LeavesRows, create_history_lem, get_histories_lem,
  get_histories_by_event_type_lem, get_histories_by_date_range_lem,
  get_histories_by_event_type_and_date_range_lem,
}
use raspi_cctv_tcp_server.Db.Histories.Removal.{row_has, delete_history_lem}

pub record HistoryRepository (Float Db : Type 0) : Type 0 where
  pub create_history : History Float → Exec Db Bool
  -- limit and offset
  pub get_histories : ℤ → ℤ → Exec Db (List (History Float))
  pub get_histories_by_event_type : ℤ → ℤ → ℤ → Exec Db (List (History Float))
  pub get_histories_by_date_range : Text → Text → ℤ → ℤ → Exec Db (List (History Float))
  pub get_histories_by_event_type_and_date_range :
      ℤ → Text → Text → ℤ → ℤ → Exec Db (List (History Float))
  pub delete_history : ℤ → Exec Db Bool

-- The class over a connection; a query takes one step more than its limit.
abbrev pub history_repository :
    (F : Floats) (S : Sqlite F.Double) → HistoryRepository F.Float S.Connection
history_repository F S = record {
  create_history = Histories.create_history F S;
  get_histories = λ limit. Histories.get_histories F S (suc (to_nat limit)) limit;
  get_histories_by_event_type =
      λ t limit. Histories.get_histories_by_event_type F S (suc (to_nat limit)) t limit;
  get_histories_by_date_range =
      λ a b limit. Histories.get_histories_by_date_range F S (suc (to_nat limit)) a b limit;
  get_histories_by_event_type_and_date_range = λ t a b limit.
      Histories.get_histories_by_event_type_and_date_range F S (suc (to_nat limit)) t a b limit;
  delete_history = Histories.delete_history F S;
}

module _ (F : Floats) (S : Sqlite F.Double) (T : Tables S) (laws : HistoryStatements S T) where
  -- Under SQLite's contract, and for dates that do not read as numbers, the class keeps a list of
  -- events: each of the four queries returns the page that its limit and offset ask for of the
  -- events that it admits, newest first, and changes nothing; a creation adds one event at the end;
  -- a deletion removes the events with the key and tells whether there was one. The users are never
  -- touched.
  pub history_repository_lem :
      (h : History F.Float) (t id : ℤ) (a b : Text) (limit offset : ℕ) (db : S.Connection)
      → T.reads_as_number (c_str h.date) ≡ false
      → T.reads_as_number (c_str a) ≡ false
      → T.reads_as_number (c_str b) ≡ false
      → let R = history_repository F S in
        let dates = in_range S T (c_str a) (c_str b) in
        LeavesRows F S T laws db true
          (T.rows db ++ row_of F S T laws db h ∷ [])
          (R.create_history h db)
        × (R.get_histories (pos limit) (pos offset) db
            ≡ (ok (map (history_from F) (page S T (λ _. true) limit offset db)), db))
        × (R.get_histories_by_event_type t (pos limit) (pos offset) db
            ≡ (ok (map (tidy_from F) (page S T (of_type S T t) limit offset db)), db))
        × (R.get_histories_by_date_range a b (pos limit) (pos offset) db
            ≡ (ok (map (tidy_from F) (page S T dates limit offset db)), db))
        × (R.get_histories_by_event_type_and_date_range t a b (pos limit) (pos offset) db ≡ (
          ok (map (tidy_from F) (page S T (λ r. of_type S T t r && dates r) limit offset db)),
          db,
        ))
        × LeavesRows F S T laws db
            (not (is_none (find (row_has F S T laws id) (T.rows db))))
            (filter (λ r. not (row_has F S T laws id r)) (T.rows db))
            (R.delete_history id db)
  history_repository_lem h t id a b limit offset db hp ap bp = (
    create_history_lem F S T laws h db hp,
    get_histories_lem F S T laws (suc limit) limit offset db (omega arith),
    get_histories_by_event_type_lem F S T laws (suc limit) limit offset db (omega arith) t,
    get_histories_by_date_range_lem F S T laws (suc limit) limit offset db (omega arith) a b ap bp,
    get_histories_by_event_type_and_date_range_lem F S T laws (suc limit) limit offset db
        (omega arith) a b ap bp t,
    delete_history_lem F S T laws id db,
  )

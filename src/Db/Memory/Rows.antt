-- ===== src/Db/Memory/Rows.antt =====
-- The database in memory meets the contract for the statements on the history.
use raspi_cctv_tcp_server.Prelude.{
  ℕ, suc, Option, none, some, List, [], ◌∷◌, ◌++◌, Text, ℤ, pos, ◌≡◌, refl, arith,
}
use raspi_cctv_tcp_server.Db.Contract.{
  Row, HistoryStatements, Yields, ShowsRow, ShowsSpeed, Writes, bind_row,
}
use raspi_cctv_tcp_server.Db.Histories.{insert_history_sql}
use raspi_cctv_tcp_server.Db.Memory.{
  Store, Statement, memory, tables, largest_row, give_rows, at_rows, statement, insert_history,
  new_row,
}
use raspi_cctv_tcp_server.Db.Memory.Order.{newest_first-perm, newest_first-IsFalling}

shows_speed :
    (s : Statement) (r : Row ℕ) (rs : List (Row ℕ)) (v : Option ℕ)
    → r.speed ≡ v
    → ShowsSpeed memory (record s { cursor = at_rows (r ∷ rs) }) v
shows_speed s r rs none e = ground arith
shows_speed s r rs (some v) e = ground arith

shows_row :
    (s : Statement) (r : Row ℕ) (rs : List (Row ℕ))
    → ShowsRow memory (record s { cursor = at_rows (r ∷ rs) }) r
shows_row s r rs = (refl, refl, refl, refl, refl, refl, refl, shows_speed s r rs r.speed refl)

at_rows-Yields :
    (db : Store) (s : Statement) (r : Row ℕ) (rs : List (Row ℕ))
    → Yields memory (ShowsRow memory) db (record s { cursor = at_rows (r ∷ rs) }) rs
at_rows-Yields db s r [] = (record s { cursor = at_rows [] }, refl)
at_rows-Yields db s r (q ∷ rs) =
    (record s { cursor = at_rows (q ∷ rs) }, refl, shows_row s q rs, at_rows-Yields db s q rs)

give_rows-Yields :
    (db : Store) (s : Statement) (rs : List (Row ℕ))
    → memory.step db s ≡ give_rows db s rs
    → Yields memory (ShowsRow memory) db s rs
give_rows-Yields db s [] h = (record s { cursor = at_rows [] }, h)
give_rows-Yields db s (r ∷ rs) h =
    (record s { cursor = at_rows (r ∷ rs) }, h, shows_row s r rs, at_rows-Yields db s r rs)

abbrev bound : Text → Text → Text → ℤ → Text → Text → Option ℕ → Statement
bound d i p t s e v = bind_row memory d i p t s e v (statement insert_history)

abbrev with_row : Store → Statement → Store
with_row db s = record db { rows = db.rows ++ new_row db s ∷ [] }

insert_lem :
    (db : Store) (d i p : Text) (t : ℤ) (s e : Text) (v : Option ℕ)
    → (stmt : Statement) × (memory.prepare db insert_history_sql ≡ some stmt)
      × Writes memory tables db (bind_row memory d i p t s e v stmt) λ db'.
        (db'.rows
          ≡ db.rows
            ++ record {
              id = pos (suc (largest_row db.rows));
              date = d;
              image_path = i;
              plate_number = p;
              event_type = t;
              start_snapshot = some s;
              end_snapshot = some e;
              speed = v;
            }
              ∷ [])
        × (db'.users ≡ db.users)
insert_lem db d i p t s e none =
    let b = bound d i p t s e none in
    (statement insert_history, refl, (b, with_row db b, refl, (refl, refl)))
insert_lem db d i p t s e (some v) =
    let b = bound d i p t s e (some v) in
    (statement insert_history, refl, (b, with_row db b, refl, (refl, refl)))

pub history_statements : HistoryStatements memory tables
history_statements = record {
  newest_first-perm = newest_first-perm;
  newest_first-IsNewestFirst = newest_first-IsFalling;
  next_row = λ db. pos (suc (largest_row db.rows));
  insert = λ db d i p t s e v plain. insert_lem db d i p t s e v;
  select_all = λ db limit offset. (_, refl, give_rows-Yields db _ _ refl);
  select_by_type = λ db t limit offset. (_, refl, give_rows-Yields db _ _ refl);
  select_by_dates = λ db a b limit offset pa pb. (_, refl, give_rows-Yields db _ _ refl);
  select_by_type_and_dates = λ db t a b limit offset pa pb. (_, refl, give_rows-Yields db _ _ refl);
  delete = λ db i. (_, refl, (_, _, refl, (refl, refl, refl)));
  colon_is_text = λ d h. ground arith;
}

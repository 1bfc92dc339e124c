-- ===== src/Db/Histories/Columns.antt =====
-- Reading a row of the history meets no null pointer.
use raspi_cctv_tcp_server.Prelude.{◌≡◌, arith}
use raspi_cctv_tcp_server.Exec.{Fault}
use raspi_cctv_tcp_server.Exec.Fuel.{EndsIn}
use raspi_cctv_tcp_server.Floats.{Floats}
use raspi_cctv_tcp_server.Db.Sqlite.{Sqlite, row}
use raspi_cctv_tcp_server.Db.Contract.{Tables}
use raspi_cctv_tcp_server.Db.Contract.Outcomes.{Outcomes}
use raspi_cctv_tcp_server.Db.Contract.Columns.{Columns}
use raspi_cctv_tcp_server.Db.Histories.{read_history}
use raspi_cctv_tcp_server.Db.Histories.Steps.{RowReads}

module _ (F : Floats) (S : Sqlite F.Double) (T : Tables S) (outcomes : Outcomes S T)
    (columns : Columns S T outcomes) (Q : Fault → Type 0) where
  row_read :
      (db db' : S.Connection) (stmt stmt' : S.Stmt)
      → outcomes.Reads stmt
      → S.step db stmt ≡ (row, stmt', db')
      → EndsIn Q (read_history F S stmt')
  unfolding read_history
  row_read db db' stmt stmt' reads got =
      let (t1, e1) =
        columns.column_text-some db db' stmt stmt' 1 reads got (omega arith) (omega arith) in
      let (t2, e2) =
        columns.column_text-some db db' stmt stmt' 2 reads got (omega arith) (omega arith) in
      let (t3, e3) =
        columns.column_text-some db db' stmt stmt' 3 reads got (omega arith) (omega arith) in
      rw (e1, e2, e3) tt

  pub column-RowReads : RowReads F S Q
  column-RowReads = record {
    Reads = outcomes.Reads;
    prepare-Reads = outcomes.prepare-Reads;
    bind_text-Reads = outcomes.bind_text-Reads;
    bind_int-Reads = outcomes.bind_int-Reads;
    step-Reads = λ db db' stmt stmt' h e.
        ((outcomes.step-Reads db db' stmt stmt' row h e).0, row_read db db' stmt stmt' h e);
  }

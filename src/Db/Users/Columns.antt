-- ===== src/Db/Users/Columns.antt =====
-- Looking a user up meets no null pointer.
use raspi_cctv_tcp_server.Prelude.{Option-cases, Text, c_str, ◌≡◌, ap, arith, inl, inr}
use raspi_cctv_tcp_server.Exec.{Fault}
use raspi_cctv_tcp_server.Exec.Fuel.{EndsIn, AlwaysEndsIn}
use raspi_cctv_tcp_server.Db.Sqlite.{Sqlite, row}
use raspi_cctv_tcp_server.Db.Contract.{Tables}
use raspi_cctv_tcp_server.Db.Contract.Outcomes.{Outcomes, user_by_email}
use raspi_cctv_tcp_server.Db.Contract.Columns.{Columns}
use raspi_cctv_tcp_server.Db.Users.{select_by_email_sql, first_user, read_user, get_user_by_email}
use raspi_cctv_tcp_server.Db.Histories.Steps.{StepCode-cases}

module _ {D : Type 0} (S : Sqlite D) (T : Tables S) (outcomes : Outcomes S T)
    (columns : Columns S T outcomes) (Q : Fault → Type 0) where
  stepped :
      (stmt : S.Stmt) (db : S.Connection)
      → outcomes.Reads stmt
      → EndsIn Q (first_user S (S.step db stmt)).0
  unfolding first_user read_user
  stepped stmt db reads =
      let o = S.step db stmt in
      elim (StepCode-cases o.0) [
        | inl e ↦
            let got : S.step db stmt ≡ (row, o.1, o.2) = ap (λ c. (c, o.1, o.2)) e in
            let (t1, e1) =
              columns.column_text-some db o.2 stmt o.1 1 reads got (omega arith) (omega arith) in
            let (t2, e2) =
              columns.column_text-some db o.2 stmt o.1 2 reads got (omega arith) (omega arith) in
            let (t3, e3) =
              columns.column_text-some db o.2 stmt o.1 3 reads got (omega arith) (omega arith) in
            rw (e, first_user, e1, e2, e3) tt
        | inr (inl e) ↦ rw (e, first_user) tt
        | inr (inr e) ↦ rw (e, first_user) tt
      ]

  pub get_user_by_email-EndsIn : (email : Text) → AlwaysEndsIn Q (get_user_by_email S email)
  unfolding get_user_by_email
  get_user_by_email-EndsIn email db = elim (Option-cases (S.prepare db select_by_email_sql)) [
    | inl e ↦ rw (e, get_user_by_email) tt
    | inr (stmt, e) ↦
        rw (e, get_user_by_email)
          (stepped _ db (
            outcomes.bind_text-Reads 1 (c_str email) stmt
              (outcomes.prepare-Reads user_by_email db stmt e)))
  ]

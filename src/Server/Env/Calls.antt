-- ===== src/Server/Env/Calls.antt =====
-- How the repositories' reading methods end under the parts of SQLite's contract.
use raspi_cctv_tcp_server.Prelude.{Text}
use raspi_cctv_tcp_server.Exec.{Fault, uncaught}
use raspi_cctv_tcp_server.Exec.Fuel.{AlwaysEndsIn, IsReal, IsThrow}
use raspi_cctv_tcp_server.Db.Contract.Limits.{RowLimits}
use raspi_cctv_tcp_server.Db.Contract.{Tables}
use raspi_cctv_tcp_server.Db.Contract.Outcomes.{Outcomes}
use raspi_cctv_tcp_server.Db.Contract.Columns.{Columns}
use raspi_cctv_tcp_server.Db.Users.Columns.{get_user_by_email-EndsIn}
use raspi_cctv_tcp_server.Db.Histories.Columns.{column-RowReads}
use raspi_cctv_tcp_server.Db.Users.Faults.{get_user_by_email-KeepsFuel}
use raspi_cctv_tcp_server.Db.Histories.Steps.{
  RowReads, IsReal-RowReads, get_histories-EndsIn, get_histories_by_event_type-EndsIn,
  get_histories_by_date_range-EndsIn, get_histories_by_event_type_and_date_range-EndsIn,
}
use raspi_cctv_tcp_server.Db.Users.{get_user_by_email}
use raspi_cctv_tcp_server.Server.Env.{Env}
use raspi_cctv_tcp_server.Server.Env.Fuel.{Calls}

module _ (E : Env) (limits : RowLimits E.sqlite) where
  open E use {floats, sqlite}

  -- From how a look-up and the reading of a row end.
  calls_of :
      (Q : Fault → Type 0)
      → Q uncaught
      → ((email : Text) → AlwaysEndsIn Q (get_user_by_email sqlite email))
      → RowReads floats sqlite Q
      → Calls E Q
  calls_of Q throws lookup rows = record {
    throws = throws;
    lookup = lookup;
    all = λ n offset. get_histories-EndsIn floats sqlite Q limits rows n offset;
    by_type =
        λ n offset t. get_histories_by_event_type-EndsIn floats sqlite Q limits rows n offset t;
    by_dates =
        λ n offset a b. get_histories_by_date_range-EndsIn floats sqlite Q limits rows n offset a b;
    by_type_and_dates = λ n offset t a b.
        get_histories_by_event_type_and_date_range-EndsIn floats sqlite Q limits rows n offset t a
          b;
  }

  pub IsReal-Calls : Calls E IsReal
  IsReal-Calls =
      calls_of IsReal tt (get_user_by_email-KeepsFuel sqlite) (IsReal-RowReads floats sqlite)

  module _ (T : Tables sqlite) (outcomes : Outcomes sqlite T)
      (columns : Columns sqlite T outcomes) where
    pub IsThrow-Calls : Calls E IsThrow
    IsThrow-Calls =
        calls_of IsThrow tt (get_user_by_email-EndsIn sqlite T outcomes columns IsThrow)
          (column-RowReads floats sqlite T outcomes columns IsThrow)

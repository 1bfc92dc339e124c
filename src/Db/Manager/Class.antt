-- ===== src/Db/Manager/Class.antt =====
-- include/db/DBManager.hpp: the members that the class has for others, over a manager's state.
use raspi_cctv_tcp_server.Prelude.{Option, Bool, String, Text}
use raspi_cctv_tcp_server.Db.Sqlite.{Sqlite}
use raspi_cctv_tcp_server.Db.Manager
use raspi_cctv_tcp_server.Db.Manager.{Manager, new_manager, Opener}

pub record DbManager (Self Db : Type 0) : Type 0 where
  pub construct : Text → Self
  pub destroy : Self → Self
  pub open_db : Self → Bool × Self
  pub close_db : Self → Self
  pub is_open : Self → Bool
  pub execute : String → Self → Bool × Self
  pub get_db : Self → Option Db

abbrev pub db_manager : {D : Type 0} (S : Sqlite D) → Opener S → DbManager (Manager S) S.Connection
db_manager S sqlite3_open = record {
  construct = new_manager S;
  destroy = Manager.destroy_manager S;
  open_db = Manager.open_db S sqlite3_open;
  close_db = Manager.close_db S;
  is_open = Manager.is_open_db S;
  execute = Manager.execute S;
  get_db = Manager.get_db S;
}

-- include/db/DBInitializer.hpp
pub record DbInitializer (Self : Type 0) : Type 0 where
  pub init : Self → Self

abbrev pub db_initializer : {D : Type 0} (S : Sqlite D) → DbInitializer (Manager S)
db_initializer S = record { init = Manager.init S }

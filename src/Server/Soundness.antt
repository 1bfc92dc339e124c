-- ===== src/Server/Soundness.antt =====
-- What every command and every session keeps: the keys of the users, the shape of the history's
-- rows, and the settings of the camera.
use raspi_cctv_tcp_server.Prelude.{Option, none, some, Text, All}
use raspi_cctv_tcp_server.Exec.{Exec}
use raspi_cctv_tcp_server.Exec.Keeping.{Keeps}
use raspi_cctv_tcp_server.Db.Contract.{Tables}
use raspi_cctv_tcp_server.Db.Contract.Outcomes.{Outcomes}
use raspi_cctv_tcp_server.Db.Users.{get_user_by_email}
use raspi_cctv_tcp_server.Db.Users.Table.{IsKeyed}
use raspi_cctv_tcp_server.Db.Users.Keeping.{SameTables, KeyedStep, get_user_by_email-SameTables}
use raspi_cctv_tcp_server.Server.Env.{Env, World, on_db}
use raspi_cctv_tcp_server.Server.History.Adding.{SoundRow}
use raspi_cctv_tcp_server.Server.Overlay.{config_path, parse_file}
use raspi_cctv_tcp_server.Server.Overlay.Contract.{JsonContract}
use raspi_cctv_tcp_server.Server.Overlay.Settings.{IsSettled}

module _ (E : Env) (T : Tables E.sqlite) (json : JsonContract E.json) where
  abbrev pub SettledIfAny : Option E.json.Value → Type 0
  SettledIfAny none = Unit
  SettledIfAny (some v) = IsSettled E json v

  -- No two users share a key or an address; each row of the history has a known type, and a speed
  -- only if it is of speeding; if the file of settings can be read and parsed, its mode is known
  -- and its sharpness level stands beside the mode "sharp" only.
  pub record IsSound (w : World E) : Type 0 where
    pub keyed : IsKeyed (T.users w.db)
    pub rows : All (SoundRow E) (T.rows w.db)
    pub config : SettledIfAny (parse_file E (E.files.read w.disk config_path))

  module _ (outcomes : Outcomes E.sqlite T) where
    pub same-IsSound :
        (w : World E) (db : E.sqlite.Connection)
        → SameTables E.sqlite T outcomes w.db db
        → IsSound w
        → IsSound (record w { db = db })
    same-IsSound w db (us, rs) s = record {
      keyed = rw us s.keyed;
      rows = rw rs s.rows;
      config = s.config;
    }

    -- A query changes nothing that matters.
    pub query-Keeps :
        {A : Type 0} (m : Exec E.sqlite.Connection A)
        → ((db : E.sqlite.Connection) → SameTables E.sqlite T outcomes db (m db).1)
        → Keeps IsSound (on_db E m)
    query-Keeps m h w s = same-IsSound w (m w.db).1 (h w.db) s

    pub lookup-Keeps : (email : Text) → Keeps IsSound (on_db E (get_user_by_email E.sqlite email))
    lookup-Keeps email =
        query-Keeps (get_user_by_email E.sqlite email)
          (get_user_by_email-SameTables E.sqlite T outcomes email)

    -- What keeps the keys and does not touch the history.
    pub keyed-Keeps :
        {A : Type 0} (m : Exec E.sqlite.Connection A)
        → ((db : E.sqlite.Connection) → KeyedStep E.sqlite T outcomes db (m db).1)
        → Keeps IsSound (on_db E m)
    keyed-Keeps m h w s =
        let (us, rs) = h w.db in
        record { keyed = us s.keyed; rows = rw rs s.rows; config = s.config }

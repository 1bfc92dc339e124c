-- ===== src/Server/Startup.antt =====
-- src/main.cpp: the server's start, up to the loop that takes connections and never returns.
pub mod Context
pub mod Started
pub mod Serving
use raspi_cctv_tcp_server.Prelude.{
  ℕ, Option, none, some, Bool, true, false, List, [], ◌∷◌, Text, codes,
}
use raspi_cctv_tcp_server.Exec.{Exec, Result, ok, fault, exits, ◌>>=◌, ◌>>◌, pure}
use raspi_cctv_tcp_server.Db.Sqlite.{Sqlite}
use raspi_cctv_tcp_server.Db.Manager.{Manager, new_manager, Opener, open_db, init, get_db}
use raspi_cctv_tcp_server.Server.System.{
  System, verify_peer, fail_if_no_peer_cert, no_sslv2, no_sslv3, no_compression,
  cipher_server_preference,
}
use raspi_cctv_tcp_server.Db.Manager.Class.{db_manager, db_initializer}
use raspi_cctv_tcp_server.Server.Listener.Class.{tcp_server}
use raspi_cctv_tcp_server.Server.Listener.{
  Listener, TcpServer, new_server, set_image_handler, setup_socket,
}

abbrev pub certificate_path : Text
certificate_path = codes "/home/sejin/myCA/tcp_server/certs/tcp_server.cert.pem"

abbrev pub private_key_path : Text
private_key_path = codes "/home/sejin/myCA/tcp_server/private/tcp_server.key.pem"

abbrev pub authority_path : Text
authority_path = codes "/home/sejin/myCA/certs/ca.cert.pem"

abbrev pub database_path : Text
database_path = codes "server_data.db"

-- The handlers keep the database's handle; `none` is a null pointer.
pub record ImageHandler (Db : Type 0) : Type 0 where
  pub db : Option Db

pub record CommandHandler (Db : Type 0) : Type 0 where
  pub user_repo : Option Db
  pub history_repo : Option Db
  pub image_handler : ImageHandler Db

-- ImageHandler::ImageHandler
abbrev pub new_image_handler : {Db : Type 0} → Option Db → ImageHandler Db
new_image_handler db = record { db = db }

-- CommandHandler::CommandHandler; each repository keeps the handle that it is given.
abbrev pub new_command_handler : {Db : Type 0} → Option Db → ImageHandler Db → CommandHandler Db
new_command_handler db ih = record { user_repo = db; history_repo = db; image_handler = ih }

-- The global variable `commandHandler`, and the assignment to it in `main`.
abbrev command_handler_at_first : {Db : Type 0} → Option (CommandHandler Db)
command_handler_at_first = none

abbrev assign : {A : Type 0} → A → Option A → Option A
assign a old = some a

module _ (Sys : System) where
  open Sys use {Os}

  -- A call whose failure ends the process with status 1, and one that cannot fail.
  abbrev checked : Bool × Os → Result Unit × Os
  checked (true, s) = (ok tt, s)
  checked (false, s) = (fault (exits 1), s)

  abbrev pub check : (Os → Bool × Os) → Exec Os Unit
  check call s = checked (call s)

  abbrev pub perform : (Os → Os) → Exec Os Unit
  perform call s = (ok tt, call s)

  abbrev not_null : Option ℕ × Os → Result ℕ × Os
  not_null (some a, s) = (ok a, s)
  not_null (none, s) = (fault (exits 1), s)

  abbrev pub new_context : Exec Os ℕ
  new_context s = not_null (Sys.ctx_new s)

  abbrev pub load_files : ℕ → Exec Os Unit
  load_files ctx = do
    check (Sys.use_certificate_file ctx certificate_path)
    check (Sys.use_private_key_file ctx private_key_path)
    check (Sys.check_private_key ctx)
    check (Sys.load_verify_locations ctx authority_path)

  abbrev pub set_policy : ℕ → Exec Os Unit
  set_policy ctx = do
    perform (Sys.set_verify ctx (verify_peer ∷ fail_if_no_peer_cert ∷ []))
    perform (Sys.set_verify_depth ctx 4)
    perform
        (Sys.set_options ctx (no_sslv2 ∷ no_sslv3 ∷ no_compression ∷ cipher_server_preference ∷ []))

  -- The part of `main` that sets OpenSSL up.
  unfoldable pub make_context : Exec Os ℕ
  make_context = do
    perform Sys.ignore_sigpipe
    perform Sys.init_library
    ctx ← new_context
    load_files ctx
    set_policy ctx
    pure ctx

  module _ {D : Type 0} (S : Sqlite D) where
    open S use {Connection}

    -- What `main` has built when it calls `server.start()`.
    pub record Running : Type 0 where
      pub manager : Manager S
      -- the global variable
      pub command_handler : Option (CommandHandler Connection)
      pub server : TcpServer (ImageHandler Connection)

    abbrev pub opened : Bool × Manager S → Exec Os (Manager S)
    opened (true, m) s = (ok m, s)
    opened (false, m) s = (fault (exits 1), s)

    abbrev pub open_database : Opener S → Exec Os (Manager S)
    open_database sqlite3_open =
        let class = db_manager S sqlite3_open in
        opened (class.open_db (class.construct database_path))

    abbrev pub built : Manager S → TcpServer (ImageHandler Connection) → Running
    built m server = record {
      manager = m;
      command_handler =
          assign (new_command_handler (get_db S m) (new_image_handler (get_db S m)))
            command_handler_at_first;
      server = server;
    }

    abbrev pub start_server : ℕ → Manager S → Os → Result (TcpServer (ImageHandler Connection)) × Os
    start_server ctx m s =
        let class = tcp_server Sys in
        let (server, s') = class.construct ctx s in
        class.setup_socket 8080 (class.set_image_handler (new_image_handler (get_db S m)) server) s'

    unfoldable pub run_main : Opener S → Exec Os Running
    unfolding make_context open_db init setup_socket
    run_main sqlite3_open = do
      ctx ← make_context
      m ← open_database sqlite3_open
      server ← start_server ctx ((db_initializer S).init m)
      pure (built ((db_initializer S).init m) server)

    abbrev entered : TcpServer (ImageHandler Connection) → Option ℕ → Os → Option (Listener Sys)
    entered server none s = none
    entered server (some fd) s =
        some ((tcp_server {Handler = ImageHandler Connection} Sys).start fd server.ssl_ctx s)

    -- `server.start()`, on the socket that was set up.
    abbrev pub enter_loop : Running → Os → Option (Listener Sys)
    enter_loop r s = entered r.server r.server.server_fd s

-- ===== src/Server/Startup/Started.antt =====
-- The state in which the server starts to take connections.
use raspi_cctv_tcp_server.Prelude.{
  ℕ, String, Text, Option, none, some, Bool, true, false, List, [], ◌≡◌, refl, sym, ap, ◌∙◌, arith,
  ==_refl, subst,
}
use raspi_cctv_tcp_server.Exec.{ok, continue_inv, ok_injective}
use raspi_cctv_tcp_server.Db.Sqlite.{Sqlite}
use raspi_cctv_tcp_server.Db.Manager.{
  Manager, new_manager, Opener, open_db, init, execute, create_user_table, create_history_table,
}
use raspi_cctv_tcp_server.Db.Manager.States.{Reachable, fresh, opens, inits, handle_of_open}
use raspi_cctv_tcp_server.Server.System.{System, VerifyFlag}
use raspi_cctv_tcp_server.Server.System.Contract.{
  Resources, update, demands_certificate, SystemContract,
}
use raspi_cctv_tcp_server.Server.Listener.{TcpServer, setup_socket, on_listen, on_bind, on_socket}
use raspi_cctv_tcp_server.Server.Listener.Ownership.{OwnedBy}
use raspi_cctv_tcp_server.Server.Startup.{
  ImageHandler, new_command_handler, make_context, Running, open_database, opened, database_path,
  start_server, run_main, built,
}
use raspi_cctv_tcp_server.Server.Startup.Context.{make_context_lem}

module _ (Sys : System) (laws : SystemContract Sys) where
  open laws use {view}

  -- A socket that listens on the port, and nothing else has changed.
  pub record Listens {H : Type 0} (port : ℕ) (server server' : TcpServer H) (s s' : Sys.Os)
      : Type 0 where
    pub fd : ℕ
    pub server_fd : server' ≡ record server { server_fd = some fd }
    pub unused : (view s).is_open fd ≡ false
    pub opens_it : (view s').is_open ≡ update fd true (view s).is_open
    pub lives : (view s').is_live ≡ (view s).is_live
    pub verifies : (view s').verifies ≡ (view s).verifies
    pub port_of : (view s').port_of fd ≡ some port

  abbrev with_open : ℕ → Resources → Resources
  with_open fd r = record r { is_open = update fd true r.is_open }

  abbrev at_listen : ℕ → Resources → Resources
  at_listen fd r = record r { port_of = update fd (r.bound_to fd) r.port_of }

  module _ {H : Type 0} (port : ℕ) (server server' : TcpServer H) (s s' : Sys.Os) where
    abbrev at_port : ℕ → Resources → Resources
    at_port fd r = record r { bound_to = update fd (some port) r.bound_to }

    listen_lem :
        (fd : ℕ) (s1 s2 : Sys.Os) (o : Bool × Sys.Os)
        → Sys.socket s ≡ (some fd, s1)
        → Sys.bind fd port (Sys.set_reuse_address fd s1) ≡ (true, s2)
        → Sys.listen fd 10 s2 ≡ o
        → on_listen Sys (record server { server_fd = some fd }) o ≡ (ok server', s')
        → Listens port server server' s s'
    listen_lem fd s1 s2 (false, s3) es eb el h = cc
    listen_lem fd s1 s2 (true, s3) es eb el h =
        let (unused, made) = laws.view-socket s s1 fd es in
        let bound : view s2 ≡ at_port fd (with_open fd (view s)) =
          laws.view-bind fd port (Sys.set_reuse_address fd s1) s2 eb
          ∙ ap (at_port fd) (laws.view-set_reuse_address fd s1 ∙ made) in
        let is_s : s3 ≡ s' = ap (λ x. x.1) h in
        let seen : view s' ≡ at_listen fd (at_port fd (with_open fd (view s))) =
          ap view (sym is_s) ∙ laws.view-listen fd 10 s2 s3 el ∙ ap (at_listen fd) bound in
        record {
          fd = fd;
          server_fd = ground arith;
          unused = unused;
          opens_it = ap (λ (r : Resources). r.is_open) seen;
          lives = ap (λ (r : Resources). r.is_live) seen;
          verifies = ap (λ (r : Resources). r.verifies) seen;
          port_of = ap (λ (r : Resources). r.port_of fd) seen ∙ rw (==_refl fd) refl;
        }

    bind_lem :
        (fd : ℕ) (s1 : Sys.Os) (o : Bool × Sys.Os)
        → Sys.socket s ≡ (some fd, s1)
        → Sys.bind fd port (Sys.set_reuse_address fd s1) ≡ o
        → on_bind Sys fd (record server { server_fd = some fd }) o ≡ (ok server', s')
        → Listens port server server' s s'
    bind_lem fd s1 (false, s2) es eb h = cc
    bind_lem fd s1 (true, s2) es eb h = listen_lem fd s1 s2 _ es eb refl h

    socket_lem :
        (o : Option ℕ × Sys.Os)
        → Sys.socket s ≡ o
        → on_socket Sys port server o ≡ (ok server', s')
        → Listens port server server' s s'
    socket_lem (none, s1) es h = cc
    socket_lem (some fd, s1) es h = bind_lem fd s1 _ es refl h

    setup_socket_lem :
        setup_socket Sys port server s ≡ (ok server', s') → Listens port server server' s s'
    unfolding setup_socket
    setup_socket_lem h = socket_lem _ refl h

  -- Nothing is open and no SSL object is allocated.
  pub record IsClean (r : Resources) : Type 0 where
    pub no_fd : (f : ℕ) → r.is_open f ≡ false
    pub no_ssl : (j : ℕ) → r.is_live j ≡ false

  module _ {D : Type 0} (S : Sqlite D) (sqlite3_open : Opener S)
      (opened_handle : (p : Text)
        → (sqlite3_open p).0 ≡ true
        → (c : S.Connection) × ((sqlite3_open p).1 ≡ some c)) where
    -- The server listens on port 8080 and owns nothing but the listening socket, its context
    -- demands a certificate of every client, the database is open, and the image handler and the
    -- repositories hold its handle.
    pub record Started (r : Running Sys S) (s : Sys.Os) : Type 0 where
      pub fd : ℕ
      pub server_fd : r.server.server_fd ≡ some fd
      pub port : (view s).port_of fd ≡ some 8080
      pub owned : OwnedBy fd r.server.ssl_ctx [] (view s)
      pub handle : S.Connection
      pub database : r.manager.db ≡ some handle
      pub is_open : r.manager.is_open ≡ true
      pub images : r.server.image_handler ≡ some (record { db = some handle })
      pub commands :
          r.command_handler ≡ some (new_command_handler (some handle) (record { db = some handle }))

    opened_lem :
        (o : Bool × Manager S) (m : Manager S) (s s' : Sys.Os)
        → opened Sys S o s ≡ (ok m, s')
        → (o ≡ (true, m)) × (s ≡ s')
    opened_lem (true, m1) m s s' h = (ground arith, ap (λ x. x.1) h)
    opened_lem (false, m1) m s s' h = cc

    open_db-is_open : (m m' : Manager S) → open_db S sqlite3_open m ≡ (true, m') → m'.is_open ≡ true
    unfolding open_db
    open_db-is_open m m' h = ground arith

    execute-is_open : (q : String) (m : Manager S) → (execute S q m).1.is_open ≡ m.is_open
    unfolding execute
    execute-is_open q m = ground arith

    init-is_open : (m : Manager S) → (init S m).is_open ≡ m.is_open
    unfolding init
    init-is_open m = execute-is_open create_history_table _ ∙ execute-is_open create_user_table m

    started :
        (ctx : ℕ) (m : Manager S) (server : TcpServer (ImageHandler S.Connection))
        (s s1 s' : Sys.Os)
        → IsClean (view s)
        → view s1 ≡ record (view s) { verifies = update ctx demands_certificate (view s).verifies }
        → open_db S sqlite3_open (new_manager S database_path) ≡ (true, m)
        → start_server Sys S ctx (init S m) s1 ≡ (ok server, s')
        → Started (built Sys S (init S m) server) s'
    started ctx m server s s1 s' clean seen made h =
        let l = setup_socket_lem 8080 _ server (Sys.ignore_sigpipe s1) s' h in
        let is_open : (init S m).is_open ≡ true = init-is_open m ∙ open_db-is_open _ m made in
        let (c, held) =
          handle_of_open S sqlite3_open opened_handle database_path (init S m)
            (inits (
              subst (λ x. Reachable S sqlite3_open opened_handle database_path x)
                (ap (λ x. x.1) made) (opens fresh refl)))
            is_open in
        let before : view (Sys.ignore_sigpipe s1)
            ≡ record (view s) { verifies = update ctx demands_certificate (view s).verifies } =
          laws.view-ignore_sigpipe s1 ∙ seen in
        let shut : (f : ℕ) → (view (Sys.ignore_sigpipe s1)).is_open f ≡ false =
          λ f. ap (λ (r : Resources). r.is_open f) before ∙ clean.no_fd f in
        let dead : (j : ℕ) → (view (Sys.ignore_sigpipe s1)).is_live j ≡ false =
          λ j. ap (λ (r : Resources). r.is_live j) before ∙ clean.no_ssl j in
        let is_ctx : server.ssl_ctx ≡ ctx =
          ap (λ (x : TcpServer (ImageHandler S.Connection)). x.ssl_ctx) l.server_fd in
        let demanded : (view s').verifies ctx ≡ demands_certificate =
          ap (λ (g : ℕ → List VerifyFlag). g ctx) l.verifies
          ∙ ap (λ (r : Resources). r.verifies ctx) before
          ∙ rw (==_refl ctx) refl in
        record {
          fd = l.fd;
          server_fd = ap (λ (x : TcpServer (ImageHandler S.Connection)). x.server_fd) l.server_fd;
          port = l.port_of;
          owned = record {
            fds = λ f. ap (λ (g : ℕ → Bool). g f) l.opens_it ∙ ground (arith, shut f);
            tls = λ j. ap (λ (g : ℕ → Bool). g j) l.lives ∙ dead j;
            distinct = tt;
            listening = refl;
            verified = tt;
            demands = ap (view s').verifies is_ctx ∙ demanded;
          };
          handle = c;
          database = held;
          is_open = is_open;
          images =
              ap (λ (x : TcpServer (ImageHandler S.Connection)). x.image_handler) l.server_fd
              ∙ ap (λ (h : Option S.Connection). some (record { db = h })) held;
          commands =
              ap (λ (h : Option S.Connection). some (new_command_handler h (record { db = h })))
                held;
        }

    -- When the calls of the system and of OpenSSL meet their contract, the process starts with no
    -- open descriptor and no SSL object, and sqlite3_open gives a
    -- handle when it succeeds: a start that succeeds ends with a server that listens on port 8080,
    -- owns nothing but its listening socket, demands a certificate of every client, and whose
    -- handlers all hold the handle of the opened database; the global pointer to the command handler
    -- is not null.
    pub run_main-Started :
        (s s' : Sys.Os) (r : Running Sys S)
        → IsClean (view s)
        → run_main Sys S sqlite3_open s ≡ (ok r, s')
        → Started r s'
    unfolding run_main
    run_main-Started s s' r clean h =
        let (ctx, s1, e1, h1) = continue_inv _ (make_context Sys s) r s' h in
        let (m, s2, e2, h2) = continue_inv _ (open_database Sys S sqlite3_open s1) r s' h1 in
        let (server, s3, e3, h3) = continue_inv _ (start_server Sys S ctx (init S m) s2) r s' h2 in
        let (made, same) = opened_lem _ m s1 s2 e2 in
        let first : view s2
            ≡ record (view s) { verifies = update ctx demands_certificate (view s).verifies } =
          ap view (sym same) ∙ make_context_lem Sys laws s s1 ctx e1 in
        let is_r : built Sys S (init S m) server ≡ r = ok_injective (ap (λ x. x.0) h3) in
        let is_s : s3 ≡ s' = ap (λ x. x.1) h3 in
        subst (λ t. Started r t) is_s
          (subst (λ x. Started x s3) is_r (started ctx m server s s2 s3 clean first made e3))

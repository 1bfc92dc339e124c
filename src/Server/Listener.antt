-- ===== src/Server/Listener.antt =====
-- src/server/TcpServer.cpp: the listening socket, and the loop that takes connections and gives each
-- one to a thread of its own.
pub mod Class
pub mod Ownership
pub mod Rounds
use raspi_cctv_tcp_server.Prelude.{
  ℕ, Option, none, some, Text, Bool, true, false, List, [], ◌∷◌, ◌++◌, ◌≡◌,
}
use raspi_cctv_tcp_server.Exec.{Exec, Result, ok, fault, exits, null_pointer}
use raspi_cctv_tcp_server.Server.System.{System}

-- What a client's thread is given.
pub record ClientHandlerArgs : Type 0 where
  pub client_fd : ℕ
  pub ssl : ℕ

-- A struct of the header that nothing uses.
pub record UploadSession (Ofstream : Type 0) : Type 0 where
  pub filename : Text
  pub filesize : ℕ
  pub received : ℕ
  pub ofs : Ofstream

-- `none` stands for a descriptor of -1 and for a null pointer; `Handler` is the image handler.
pub record TcpServer (Handler : Type 0) : Type 0 where
  pub server_fd : Option ℕ
  pub ssl_ctx : ℕ
  pub image_handler : Option Handler

module _ {Handler : Type 0} (Sys : System) where
  open Sys use {Os, ignore_sigpipe, socket, set_reuse_address, bind, listen, close}

  -- TcpServer::TcpServer
  abbrev pub new_server : ℕ → Os → TcpServer Handler × Os
  new_server ctx s =
      (record { server_fd = none; ssl_ctx = ctx; image_handler = none }, ignore_sigpipe s)

  -- TcpServer::~TcpServer
  abbrev pub destroy : TcpServer Handler → Os → Os
  destroy server s = elim (server.server_fd) [ none ↦ s | some fd ↦ close fd s ]

  abbrev pub set_image_handler : Handler → TcpServer Handler → TcpServer Handler
  set_image_handler handler server = record server { image_handler = some handler }

  abbrev pub on_listen : TcpServer Handler → Bool × Os → Result (TcpServer Handler) × Os
  on_listen server (false, s) = (fault (exits 1), s)
  on_listen server (true, s) = (ok server, s)

  abbrev pub on_bind : ℕ → TcpServer Handler → Bool × Os → Result (TcpServer Handler) × Os
  on_bind fd server (false, s) = (fault (exits 1), s)
  on_bind fd server (true, s) = on_listen server (listen fd 10 s)

  abbrev pub on_socket : ℕ → TcpServer Handler → Option ℕ × Os → Result (TcpServer Handler) × Os
  on_socket port server (none, s) = (fault (exits 1), s)
  on_socket port server (some fd, s) =
      on_bind fd (record server { server_fd = some fd }) (bind fd port (set_reuse_address fd s))

  unfoldable pub setup_socket : ℕ → TcpServer Handler → Exec Os (TcpServer Handler)
  setup_socket port server s = on_socket port server (socket s)

module _ (Sys : System) where
  open Sys use {
    Os, accept, close, ssl_new, ssl_set_fd, ssl_accept, ssl_shutdown, ssl_free, create_thread,
    detach_thread,
  }

  -- The descriptor that the loop listens on, the context, and the clients whose threads run.
  pub record Listener : Type 0 where
    pub fd : ℕ
    pub ctx : ℕ
    pub threads : List ClientHandlerArgs
    pub os : Os

  -- Where the loop of TcpServer::start begins.
  abbrev pub start : ℕ → ℕ → Os → Listener
  start fd ctx s = record { fd = fd; ctx = ctx; threads = []; os = s }

  abbrev pub hang_up : ClientHandlerArgs → Os → Os
  hang_up a s = close a.client_fd (ssl_free a.ssl (ssl_shutdown a.ssl s))

  abbrev on_thread : Listener → ClientHandlerArgs → Bool × Os → Listener
  on_thread l a (false, s) = record l { os = hang_up a s }
  on_thread l a (true, s) = record l { threads = a ∷ l.threads; os = detach_thread s }

  abbrev on_handshake : Listener → ClientHandlerArgs → Bool × Os → Listener
  on_handshake l a (false, s) = record l { os = close a.client_fd (ssl_free a.ssl s) }
  on_handshake l a (true, s) = on_thread l a (create_thread a.client_fd a.ssl s)

  -- The pointer that SSL_new gives is not looked at before SSL_set_fd follows it.
  abbrev on_ssl : Listener → ℕ → Option ℕ × Os → Result Listener
  on_ssl l client_fd (none, s) = fault null_pointer
  on_ssl l client_fd (some ssl, s) = ok (
      on_handshake l (record { client_fd = client_fd; ssl = ssl })
        (ssl_accept ssl (ssl_set_fd ssl client_fd s)))

  abbrev on_client : Listener → Option ℕ × Os → Result Listener
  on_client l (none, s) = ok (record l { os = s })
  on_client l (some client_fd, s) = on_ssl l client_fd (ssl_new l.ctx s)

  -- One round of the loop in TcpServer::start.
  unfoldable pub accept_round : Listener → Result Listener
  accept_round l = on_client l (accept l.fd l.os)

  -- client_thread_func, once handleClientSSL has returned: the thread is gone.
  unfoldable pub end_thread :
      List ClientHandlerArgs → ClientHandlerArgs → List ClientHandlerArgs → Listener → Listener
  end_thread before a behind l = record l { threads = before ++ behind; os = hang_up a l.os }

  -- The loop and the threads, in any order: rounds that do not end the process, and threads that
  -- return.
  pub data Step (l : Listener) : Listener → Type 0 where
    takes : (l' : Listener) → accept_round l ≡ ok l' → Step l l'
    leaves :
        (before : List ClientHandlerArgs) (a : ClientHandlerArgs) (behind : List ClientHandlerArgs)
        → l.threads ≡ before ++ a ∷ behind
        → Step l (end_thread before a behind l)

  pub data Reaches (start : Listener) : Listener → Type 0 where
    here : Reaches start start
    later : {l l' : Listener} → Reaches start l → Step l l' → Reaches start l'

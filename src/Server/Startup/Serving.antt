-- ===== src/Server/Startup/Serving.antt =====
-- The loop of TcpServer::start, from where `main` calls it.
use raspi_cctv_tcp_server.Prelude.{Text, some, true, ◌≡◌, sym, ◌∙◌, subst, refl}
use raspi_cctv_tcp_server.Exec.{ok}
use raspi_cctv_tcp_server.Db.Sqlite.{Sqlite}
use raspi_cctv_tcp_server.Db.Manager.{Opener}
use raspi_cctv_tcp_server.Server.System.{System}
use raspi_cctv_tcp_server.Server.System.Contract.{SystemContract}
use raspi_cctv_tcp_server.Server.Listener.{Listener, start, Reaches}
use raspi_cctv_tcp_server.Server.Listener.Rounds.{Owned, Reaches-Owned}
use raspi_cctv_tcp_server.Server.Startup.{Running, run_main, enter_loop}
use raspi_cctv_tcp_server.Server.Startup.Started.{IsClean, run_main-Started}

the_same : {A : Type 0} {a b : A} → some a ≡ some b → a ≡ b
the_same h = cc

module _ (Sys : System) (laws : SystemContract Sys) {D : Type 0} (S : Sqlite D)
    (sqlite3_open : Opener S)
    (opened_handle : (p : Text)
      → (sqlite3_open p).0 ≡ true
      → (c : S.Connection) × ((sqlite3_open p).1 ≡ some c)) where
  open laws use {view}

  -- When the calls of the system and of OpenSSL meet their contract: from a clean start that
  -- succeeds, in every state that the loop and the threads reach, the open
  -- descriptors are the listening one and one for each running thread, no two threads share a
  -- descriptor or an SSL object, and each running thread's client has a verified certificate.
  pub serving-Owned :
      (s s' : Sys.Os) (r : Running Sys S) (first l : Listener Sys)
      → IsClean Sys laws (view s)
      → run_main Sys S sqlite3_open s ≡ (ok r, s')
      → enter_loop Sys S r s' ≡ some first
      → Reaches Sys first l
      → Owned Sys laws l
  serving-Owned s s' r first l clean h e reached =
      let st = run_main-Started Sys laws S sqlite3_open opened_handle s s' r clean h in
      let begun : some first ≡ some (start Sys st.fd r.server.ssl_ctx s') =
        sym e ∙ rw st.server_fd refl in
      Reaches-Owned Sys laws reached
        (subst (λ (x : Listener Sys). Owned Sys laws x) (sym (the_same begun)) st.owned)

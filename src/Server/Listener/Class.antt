-- ===== src/Server/Listener/Class.antt =====
-- include/server/TcpServer.hpp: the members that set the server up and take its connections.
use raspi_cctv_tcp_server.Prelude.{ℕ}
use raspi_cctv_tcp_server.Exec.{Exec, Result}
use raspi_cctv_tcp_server.Server.System.{System}
use raspi_cctv_tcp_server.Server.Listener
use raspi_cctv_tcp_server.Server.Listener.{TcpServer, Listener}

pub record TcpServerClass (Handler Os Loop : Type 0) : Type 0 where
  pub construct : ℕ → Os → TcpServer Handler × Os
  pub destroy : TcpServer Handler → Os → Os
  pub set_image_handler : Handler → TcpServer Handler → TcpServer Handler
  pub setup_socket : ℕ → TcpServer Handler → Exec Os (TcpServer Handler)
  -- start: the loop's first state, and one round
  pub start : ℕ → ℕ → Os → Loop
  pub accept_round : Loop → Result Loop

abbrev pub tcp_server :
    {Handler : Type 0} (Sys : System) → TcpServerClass Handler Sys.Os (Listener Sys)
tcp_server Sys = record {
  construct = Listener.new_server Sys;
  destroy = Listener.destroy Sys;
  set_image_handler = Listener.set_image_handler Sys;
  setup_socket = Listener.setup_socket Sys;
  start = Listener.start Sys;
  accept_round = Listener.accept_round Sys;
}

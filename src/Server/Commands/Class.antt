-- ===== src/Server/Commands/Class.antt =====
-- include/server/CommandHandler.hpp: the members of the class; a client's thread holds a pointer to
-- one.
use raspi_cctv_tcp_server.Prelude.{Option, Text}
use raspi_cctv_tcp_server.Exec.{Exec}
use raspi_cctv_tcp_server.Server.Env.{Env, World}
use raspi_cctv_tcp_server.Server.Response.{Response}
use raspi_cctv_tcp_server.Server.Net.{Tls, Link}
use raspi_cctv_tcp_server.Server.Images.{image_handler, command_get_image}
use raspi_cctv_tcp_server.Server.Auth
use raspi_cctv_tcp_server.Server.History
use raspi_cctv_tcp_server.Server.Overlay
use raspi_cctv_tcp_server.Server.Commands

pub record CommandHandlerClass (E : Env) (N : Tls) : Type 0 where
  pub handle : Text → Exec (World E) Response
  pub handle_get_image : Text → Link E N → Option N.Conn
  pub handle_register : Text → Exec (World E) Response
  pub handle_login : Text → Exec (World E) Response
  pub handle_reset_password : Text → Exec (World E) Response
  pub handle_get_history : Text → Exec (World E) Response
  pub handle_add_history : Text → Exec (World E) Response
  pub handle_get_history_by_event_type : Text → Exec (World E) Response
  pub handle_get_history_by_date_range : Text → Exec (World E) Response
  pub handle_get_history_by_event_type_and_date_range : Text → Exec (World E) Response
  pub handle_change_frame : Text → Exec (World E) Response
  pub handle_get_frame : Text → Exec (World E) Response
  pub handle_get_log : Text → Exec (World E) Response

abbrev pub command_handler : (E : Env) (N : Tls) → CommandHandlerClass E N
command_handler E N = record {
  handle = λ line. Commands.handle E line;
  handle_get_image = λ image_path l. command_get_image (image_handler E N) image_path l;
  handle_register = λ payload. Auth.handle_register E payload;
  handle_login = λ payload. Auth.handle_login E payload;
  handle_reset_password = λ payload. Auth.handle_reset_password E payload;
  handle_get_history = λ payload. History.handle_get_history E payload;
  handle_add_history = λ payload. History.handle_add_history E payload;
  handle_get_history_by_event_type = λ payload. History.handle_get_history_by_event_type E payload;
  handle_get_history_by_date_range = λ payload. History.handle_get_history_by_date_range E payload;
  handle_get_history_by_event_type_and_date_range =
      λ payload. History.handle_get_history_by_event_type_and_date_range E payload;
  handle_change_frame = λ payload. Overlay.handle_change_frame E payload;
  handle_get_frame = λ payload. Overlay.handle_get_frame E payload;
  handle_get_log = λ payload. Overlay.handle_get_log E payload;
}

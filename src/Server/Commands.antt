-- ===== src/Server/Commands.antt =====
-- src/server/CommandHandler.cpp: `handle`, which takes one line to the handler of its command.
pub mod Class
pub mod Lines
pub mod Sessions
pub mod Fuel
pub mod Keeping
use raspi_cctv_tcp_server.Prelude.{
  ℕ, Bool, ◌&&◌, ◌||◌, [], ◌∷◌, String, Text, codes, is_empty, text_eq, ◌==◌, if◌then◌else◌,
}
use raspi_cctv_tcp_server.Exec.{Exec, pure}
use raspi_cctv_tcp_server.Stream.{get_line}
use raspi_cctv_tcp_server.Server.Env.{Env, World}
use raspi_cctv_tcp_server.Server.Response.{Response, error}
use raspi_cctv_tcp_server.Server.Auth.{handle_register, handle_login, handle_reset_password}
use raspi_cctv_tcp_server.Server.History.{
  handle_add_history, handle_get_history, handle_get_history_by_event_type,
  handle_get_history_by_date_range, handle_get_history_by_event_type_and_date_range,
}
use raspi_cctv_tcp_server.Server.Overlay.{handle_change_frame, handle_get_frame, handle_get_log}

-- " \t\r\n"
abbrev is_blank : ℕ → Bool
is_blank c = c == 32 || c == 9 || c == 13 || c == 10

-- command.erase(0, command.find_first_not_of(" \t\r\n"))
unfoldable pub trim_left : Text → Text
trim_left [] = []
trim_left (c ∷ s) = let rest = trim_left s in if is_blank c then rest else c ∷ s

-- command.erase(command.find_last_not_of(" \t\r\n") + 1)
unfoldable pub trim_right : Text → Text
trim_right [] = []
trim_right (c ∷ s) = let rest = trim_right s in if is_blank c && is_empty rest then [] else c ∷ rest

unfoldable pub command_of : Text → Text
unfolding get_line trim_left trim_right
command_of line = trim_right (trim_left (get_line 32 line).0)

-- The rest of the line behind the first blank, up to the line feed.
unfoldable pub payload_of : Text → Text
unfolding get_line
payload_of line = (get_line 10 (get_line 32 line).1).0

module _ (E : Env) where
  unfoldable pub dispatch : Text → Text → Exec (World E) Response
  unfolding text_eq
  dispatch command payload =
      if text_eq command (codes "REGISTER")
      then handle_register E payload
      else if text_eq command (codes "LOGIN")
      then handle_login E payload
      else if text_eq command (codes "RESET_PASSWORD")
      then handle_reset_password E payload
      else if text_eq command (codes "GET_HISTORY")
      then handle_get_history E payload
      else if text_eq command (codes "ADD_HISTORY")
      then handle_add_history E payload
      else if text_eq command (codes "GET_HISTORY_BY_EVENT_TYPE")
      then handle_get_history_by_event_type E payload
      else if text_eq command (codes "GET_HISTORY_BY_DATE_RANGE")
      then handle_get_history_by_date_range E payload
      else if text_eq command (codes "GET_HISTORY_BY_EVENT_TYPE_AND_DATE_RANGE")
      then handle_get_history_by_event_type_and_date_range E payload
      else if text_eq command (codes "CHANGE_FRAME")
      then handle_change_frame E payload
      else if text_eq command (codes "GET_FRAME")
      then handle_get_frame E payload
      else if text_eq command (codes "GET_LOG")
      then handle_get_log E payload
      else pure (error 400 "Unknown command")

  unfoldable pub handle : Text → Exec (World E) Response
  unfolding dispatch command_of payload_of
  handle line = dispatch (command_of line) (payload_of line)

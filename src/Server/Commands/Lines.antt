-- ===== src/Server/Commands/Lines.antt =====
-- How a line that a client sends reaches its handler.
use raspi_cctv_tcp_server.Prelude.{
  false, [], ◌∷◌, ◌++◌, Text, ◌≡◌, ◌≢◌, refl, arith, ap, All, codes, text_eq, text_eq_iff, ◌∙◌,
}
use raspi_cctv_tcp_server.Exec.{Exec}
use raspi_cctv_tcp_server.Stream.{before_char}
use raspi_cctv_tcp_server.Stream.Words.{NotChar, before_char-append}
use raspi_cctv_tcp_server.Server.Env.{Env, World}
use raspi_cctv_tcp_server.Server.Response.{Response}
use raspi_cctv_tcp_server.Server.Auth.{handle_register, handle_login, handle_reset_password}
use raspi_cctv_tcp_server.Server.History.{
  handle_add_history, handle_get_history, handle_get_history_by_event_type,
  handle_get_history_by_date_range, handle_get_history_by_event_type_and_date_range,
}
use raspi_cctv_tcp_server.Server.Overlay.{handle_change_frame, handle_get_frame, handle_get_log}
use raspi_cctv_tcp_server.Server.Commands.{handle}

-- The commands of the protocol.
pub data Command : Type 0 where
  sign_up sign_in reset_password : Command
  get_history add_history by_event_type by_date_range by_event_type_and_date_range : Command
  change_frame get_frame get_log : Command

abbrev pub name : Command → Text
name sign_up = codes "REGISTER"
name sign_in = codes "LOGIN"
name reset_password = codes "RESET_PASSWORD"
name get_history = codes "GET_HISTORY"
name add_history = codes "ADD_HISTORY"
name by_event_type = codes "GET_HISTORY_BY_EVENT_TYPE"
name by_date_range = codes "GET_HISTORY_BY_DATE_RANGE"
name by_event_type_and_date_range = codes "GET_HISTORY_BY_EVENT_TYPE_AND_DATE_RANGE"
name change_frame = codes "CHANGE_FRAME"
name get_frame = codes "GET_FRAME"
name get_log = codes "GET_LOG"

module _ (E : Env) where
  abbrev pub run : Command → Text → Exec (World E) Response
  run sign_up = handle_register E
  run sign_in = handle_login E
  run reset_password = handle_reset_password E
  run get_history = handle_get_history E
  run add_history = handle_add_history E
  run by_event_type = handle_get_history_by_event_type E
  run by_date_range = handle_get_history_by_date_range E
  run by_event_type_and_date_range = handle_get_history_by_event_type_and_date_range E
  run change_frame = handle_change_frame E
  run get_frame = handle_get_frame E
  run get_log = handle_get_log E

  -- The line of a command with a payload, as a client sends it.
  abbrev pub line : Command → Text → Text
  line c payload = name c ++ 32 ∷ payload ++ 10 ∷ []

  run_payload :
      (c : Command) (payload : Text)
      → handle E (line c payload) ≡ run c (before_char 10 (payload ++ 10 ∷ []))
  unfolding handle
  run_payload sign_up payload = refl
  run_payload _ payload = refl

  -- The name of one of the eleven commands, a blank, a payload with no line feed in it and a line
  -- feed: `handle` gives this line to the handler of that command, with the payload.
  pub handle-line :
      (c : Command) (payload : Text)
      → All (NotChar 10) payload
      → handle E (line c payload) ≡ run c payload
  handle-line c payload h = run_payload c payload ∙ ap (run c) (before_char-append 10 payload [] h)

  -- A command alone, with a line feed or with a carriage return and a line feed, reaches its
  -- handler with an empty payload.
  pub handle_bare :
      (c : Command)
      → (handle E (name c ++ 10 ∷ []) ≡ run c []) × (handle E (name c ++ 13 ∷ 10 ∷ []) ≡ run c [])
  unfolding handle
  handle_bare sign_up = (refl, refl)
  handle_bare _ = (refl, refl)

  ne→false : (s t : Text) → s ≢ t → text_eq s t ≡ false
  ne→false s t h = ground (arith, text_eq_iff s t)

-- ===== src/Server/Commands/Keeping.antt =====
-- Every line keeps the server's state sound.
use raspi_cctv_tcp_server.Prelude.{Text, [], none, ◌≡◌, codes, text_eq}
use raspi_cctv_tcp_server.Exec.Keeping.{Keeps, if-Keeps}
use raspi_cctv_tcp_server.Db.Contract.{Tables}
use raspi_cctv_tcp_server.Db.Contract.Outcomes.{Outcomes}
use raspi_cctv_tcp_server.Server.Env.{Env, World}
use raspi_cctv_tcp_server.Server.Overlay.Contract.{FilesContract, JsonContract}
use raspi_cctv_tcp_server.Server.Soundness.{IsSound}
use raspi_cctv_tcp_server.Server.Auth.Keeping.{
  handle_register-Keeps, handle_login-Keeps, handle_reset_password-Keeps,
}
use raspi_cctv_tcp_server.Server.History.Keeping.{
  handle_get_history-Keeps, handle_get_history_by_event_type-Keeps,
  handle_get_history_by_date_range-Keeps, handle_get_history_by_event_type_and_date_range-Keeps,
  handle_add_history-Keeps,
}
use raspi_cctv_tcp_server.Server.Overlay.Keeping.{
  handle_change_frame-Keeps, handle_get_frame-Keeps, handle_get_log-Keeps,
}
use raspi_cctv_tcp_server.Server.Commands.{dispatch, command_of, payload_of, handle}

module _ (E : Env) (T : Tables E.sqlite) (json : JsonContract E.json)
    (outcomes : Outcomes E.sqlite T) (files : FilesContract E.files)
    (empty_fails : E.json.parse [] ≡ none) where
  abbrev Sound : World E → Type 0
  Sound = IsSound E T json

  dispatch-Keeps : (command payload : Text) → Keeps Sound (dispatch E command payload)
  unfolding dispatch
  dispatch-Keeps command payload =
      if-Keeps Sound (text_eq command (codes "REGISTER")) _ _
        (handle_register-Keeps E T json outcomes payload)
        (if-Keeps Sound (text_eq command (codes "LOGIN")) _ _
          (handle_login-Keeps E T json outcomes payload)
          (if-Keeps Sound (text_eq command (codes "RESET_PASSWORD")) _ _
            (handle_reset_password-Keeps E T json outcomes payload)
            (if-Keeps Sound (text_eq command (codes "GET_HISTORY")) _ _
              (handle_get_history-Keeps E T json outcomes payload)
              (if-Keeps Sound (text_eq command (codes "ADD_HISTORY")) _ _
                (handle_add_history-Keeps E T json outcomes payload)
                (if-Keeps Sound (text_eq command (codes "GET_HISTORY_BY_EVENT_TYPE")) _ _
                  (handle_get_history_by_event_type-Keeps E T json outcomes payload)
                  (if-Keeps Sound (text_eq command (codes "GET_HISTORY_BY_DATE_RANGE")) _ _
                    (handle_get_history_by_date_range-Keeps E T json outcomes payload)
                    (if-Keeps Sound
                      (text_eq command (codes "GET_HISTORY_BY_EVENT_TYPE_AND_DATE_RANGE")) _ _
                      (handle_get_history_by_event_type_and_date_range-Keeps E T json outcomes
                        payload)
                      (if-Keeps Sound (text_eq command (codes "CHANGE_FRAME")) _ _
                        (handle_change_frame-Keeps E T json files empty_fails payload)
                        (if-Keeps Sound (text_eq command (codes "GET_FRAME")) _ _
                          (handle_get_frame-Keeps E T json files empty_fails payload)
                          (if-Keeps Sound (text_eq command (codes "GET_LOG")) _ _
                            (handle_get_log-Keeps E T json files empty_fails payload)
                            (λ w s. s)))))))))))

  pub handle-Keeps : (line : Text) → Keeps Sound (handle E line)
  unfolding handle
  handle-Keeps line = dispatch-Keeps (command_of line) (payload_of line)

-- ===== src/Server/Commands/Fuel.antt =====
-- How a line's handler ends: in a value, or in a fault of a kind.
use raspi_cctv_tcp_server.Prelude.{Text, codes, text_eq}
use raspi_cctv_tcp_server.Exec.Fuel.{AlwaysEndsIn, if-EndsIn}
use raspi_cctv_tcp_server.Exec.{Fault}
use raspi_cctv_tcp_server.Server.Env.{Env}
use raspi_cctv_tcp_server.Server.Env.Fuel.{Calls}
use raspi_cctv_tcp_server.Server.Auth.Fuel.{
  handle_register-EndsIn, handle_login-EndsIn, handle_reset_password-EndsIn,
}
use raspi_cctv_tcp_server.Server.History.Fuel.{
  handle_get_history-EndsIn, handle_get_history_by_event_type-EndsIn,
  handle_get_history_by_date_range-EndsIn, handle_get_history_by_event_type_and_date_range-EndsIn,
  handle_add_history-EndsIn,
}
use raspi_cctv_tcp_server.Server.Overlay.Fuel.{
  handle_change_frame-EndsIn, handle_get_frame-EndsIn, handle_get_log-EndsIn,
}
use raspi_cctv_tcp_server.Server.Commands.{dispatch, command_of, payload_of, handle}

module _ (E : Env) (Q : Fault → Type 0) (calls : Calls E Q) where
  dispatch-EndsIn : (command payload : Text) → AlwaysEndsIn Q (dispatch E command payload)
  unfolding dispatch
  dispatch-EndsIn command payload =
      if-EndsIn Q (text_eq command (codes "REGISTER")) _ _
        (handle_register-EndsIn E Q calls payload)
        (if-EndsIn Q (text_eq command (codes "LOGIN")) _ _ (handle_login-EndsIn E Q calls payload) (
          if-EndsIn Q (text_eq command (codes "RESET_PASSWORD")) _ _
            (handle_reset_password-EndsIn E Q calls payload)
            (if-EndsIn Q (text_eq command (codes "GET_HISTORY")) _ _
              (handle_get_history-EndsIn E Q calls payload)
              (if-EndsIn Q (text_eq command (codes "ADD_HISTORY")) _ _
                (handle_add_history-EndsIn E Q calls payload)
                (if-EndsIn Q (text_eq command (codes "GET_HISTORY_BY_EVENT_TYPE")) _ _
                  (handle_get_history_by_event_type-EndsIn E Q calls payload)
                  (if-EndsIn Q (text_eq command (codes "GET_HISTORY_BY_DATE_RANGE")) _ _
                    (handle_get_history_by_date_range-EndsIn E Q calls payload)
                    (if-EndsIn Q
                      (text_eq command (codes "GET_HISTORY_BY_EVENT_TYPE_AND_DATE_RANGE")) _ _
                      (handle_get_history_by_event_type_and_date_range-EndsIn E Q calls payload)
                      (if-EndsIn Q (text_eq command (codes "CHANGE_FRAME")) _ _
                        (handle_change_frame-EndsIn E Q calls payload)
                        (if-EndsIn Q (text_eq command (codes "GET_FRAME")) _ _
                          (handle_get_frame-EndsIn E Q calls payload)
                          (if-EndsIn Q (text_eq command (codes "GET_LOG")) _ _
                            (handle_get_log-EndsIn E Q calls payload) (λ w. tt)))))))))))

  pub handle-EndsIn : (line : Text) → AlwaysEndsIn Q (handle E line)
  unfolding handle
  handle-EndsIn line = dispatch-EndsIn (command_of line) (payload_of line)

-- ===== src/Server/Overlay/Fuel.antt =====
-- How the commands on the camera's settings end: in a value, or in a fault of a kind.
use raspi_cctv_tcp_server.Prelude.{ℕ, Option, none, some, Bool-cases, inl, inr, Text, String, ℤ}
use raspi_cctv_tcp_server.Exec.{Fault}
use raspi_cctv_tcp_server.Exec.Fuel.{EndsIn, AlwaysEndsIn}
use raspi_cctv_tcp_server.Stream.{Stream, open_stream, read_int}
use raspi_cctv_tcp_server.Server.Env.{Env, World}
use raspi_cctv_tcp_server.Server.Env.Fuel.{Calls}
use raspi_cctv_tcp_server.Server.Overlay.{
  Edit, refuse, throws, edited, save_text, save_on, finish_edit, change_parsed, change_read,
  handle_change_frame, finished, file_document, show_parsed, show_read, handle_get_frame,
  handle_get_log, config_path, status_path,
}

module _ (E : Env) (Q : Fault → Type 0) (calls : Calls E Q) where
  open E use {json, files}

  save_text-EndsIn :
      (disk : files.Disk) (text : Option Text) (w : World E) → EndsIn Q (save_text E disk text w).0
  save_text-EndsIn disk none w = calls.throws
  save_text-EndsIn disk (some text) w = tt

  save_on-EndsIn :
      (made : Option files.Disk) (config : json.Value) → AlwaysEndsIn Q (save_on E made config)
  save_on-EndsIn none config w = tt
  save_on-EndsIn (some disk) config w = save_text-EndsIn disk (json.dump config) w

  finish_edit-EndsIn : (e : Edit json.Value) → AlwaysEndsIn Q (finish_edit E e)
  finish_edit-EndsIn (refuse n message) w = tt
  finish_edit-EndsIn throws w = calls.throws
  finish_edit-EndsIn (edited config) w = save_on-EndsIn _ config w

  change_parsed-EndsIn :
      (menu_type : ℤ) (s : Stream) (config : Option json.Value)
      → AlwaysEndsIn Q (change_parsed E menu_type s config)
  change_parsed-EndsIn menu_type s none w = tt
  change_parsed-EndsIn menu_type s (some config) w = finish_edit-EndsIn _ w

  change_read-EndsIn :
      (menu_type : ℤ) (s : Stream) (text : Option Text) (cut : Option (ℕ × Text))
      → AlwaysEndsIn Q (change_read E menu_type s text cut)
  change_read-EndsIn menu_type s none none w = tt
  change_read-EndsIn menu_type s none (some x) w = tt
  change_read-EndsIn menu_type s (some text) cut w = change_parsed-EndsIn menu_type s _ w

  pub handle_change_frame-EndsIn : (payload : Text) → AlwaysEndsIn Q (handle_change_frame E payload)
  unfolding handle_change_frame
  handle_change_frame-EndsIn payload w =
      let (menu_type, s) = read_int w.stale_int (open_stream payload) in
      elim (Bool-cases s.failed) [
        | inl bad ↦ rw bad tt
        | inr good ↦ rw good (
            change_read-EndsIn menu_type s (files.read w.disk config_path)
              (files.unreadable w.disk config_path) w)
      ]

  finished-EndsIn : (text : Option Text) → EndsIn Q (finished E text)
  finished-EndsIn none = calls.throws
  finished-EndsIn (some text) = tt

  show_read-EndsIn :
      (closed bad message : String) (text : Option Text) (cut : Option (ℕ × Text))
      → EndsIn Q (show_read E closed bad message text cut)
  show_read-EndsIn closed bad message none none = tt
  show_read-EndsIn closed bad message none (some x) = tt
  show_read-EndsIn closed bad message (some text) cut = parsed (json.parse text)
    where
      parsed : (config : Option json.Value) → EndsIn Q (show_parsed E bad message config)
      parsed none = tt
      parsed (some config) = finished-EndsIn (file_document E message config)

  pub handle_get_frame-EndsIn : (payload : Text) → AlwaysEndsIn Q (handle_get_frame E payload)
  unfolding handle_get_frame
  handle_get_frame-EndsIn payload w =
      show_read-EndsIn "Failed to open overlay_config" "Failed to parse overlay_config"
        "Overlay config retrieved" (files.read w.disk config_path)
        (files.unreadable w.disk config_path)

  pub handle_get_log-EndsIn : (payload : Text) → AlwaysEndsIn Q (handle_get_log E payload)
  unfolding handle_get_log
  handle_get_log-EndsIn payload w =
      show_read-EndsIn "Failed to open shm_status" "Failed to parse shm_status"
        "shm_status retrieved" (files.read w.disk status_path) (files.unreadable w.disk status_path)

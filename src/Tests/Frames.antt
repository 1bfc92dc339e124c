-- ===== src/Tests/Frames.antt =====
-- The camera's settings: the theorems on CHANGE_FRAME and GET_FRAME at concrete payloads.
use raspi_cctv_tcp_server.Prelude.{
  none, some, true, false, Text, pos, codes, ◌≡◌, refl, text_eq, c_str, arith,
}
use raspi_cctv_tcp_server.Stream.{open_stream, read_int, read_word}
use raspi_cctv_tcp_server.Server.Overlay.{edit, edit_mode, handle_change_frame}
use raspi_cctv_tcp_server.Server.Overlay.Changes.{handle_change_frame_error}
use raspi_cctv_tcp_server.Server.Overlay.Settings.{IsSettled, edit-IsSettled}
use raspi_cctv_tcp_server.Tests.Document.{
  Value, settings, documents-JsonContract, documents-settings,
}
use raspi_cctv_tcp_server.Tests.Sample.{env, world, sharp_settings}

abbrev night_settings : Value
night_settings = settings (some (codes "night")) none (some true) (some false)

pub sharp-IsSettled : IsSettled env documents-JsonContract sharp_settings
unfolding text_eq c_str
sharp-IsSettled =
    let (mode, level) = documents-settings (codes "sharp") (pos 40) (some true) (some false) in
    (codes "sharp", (refl, mode, (40, omega arith, level)))

edit-IsSettled_example : IsSettled env documents-JsonContract night_settings
unfolding edit edit_mode read_word open_stream text_eq c_str
edit-IsSettled_example =
    edit-IsSettled env documents-JsonContract (pos 7) (pos 2) (open_stream (codes " night"))
      sharp_settings night_settings refl sharp-IsSettled

abbrev night_line : Text
night_line = codes "2 night"

abbrev unknown_line : Text
unknown_line = codes "2 dusk"

handle_change_frame_error_example : (handle_change_frame env unknown_line world).1 ≡ world
unfolding handle_change_frame read_int text_eq c_str read_word
handle_change_frame_error_example =
    handle_change_frame_error env unknown_line world 400 "Invalid mode value" refl

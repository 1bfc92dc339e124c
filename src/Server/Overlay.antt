-- ===== src/Server/Overlay.antt =====
-- src/server/CommandHandler.cpp: handleChangeFrame, handleGetFrame and handleGetLog, which work on
-- two json files in shared memory.
pub mod Contract
pub mod Changes
pub mod Fuel
pub mod Keeping
pub mod Settings
use raspi_cctv_tcp_server.Prelude.{
  ℕ, Option, none, some, Bool, ◌&&◌, ◌||◌, not, List, [], ◌∷◌, String, Text, ℤ, pos, codes, text_eq,
  is_neg, is_int, exceeds, if◌then◌else◌,
}
use raspi_cctv_tcp_server.Exec.{Exec, Result, ok, fault, uncaught}
use raspi_cctv_tcp_server.Stream.{Stream, open_stream, read_word, read_int}
use raspi_cctv_tcp_server.Server.Env.{Env, World}
use raspi_cctv_tcp_server.Server.Response.{Response, error, success, dumped}

abbrev pub config_path : Text
config_path = codes "/dev/shm/overlay_config"

abbrev pub status_path : Text
status_path = codes "/dev/shm/shm_status"

-- What the branches of handleChangeFrame do with the parsed file.
pub data Edit (Value : Type 0) : Type 0 where
  refuse : ℕ → String → Edit Value
  throws : Edit Value
  edited : Value → Edit Value

abbrev pub known_mode : Text → Bool
known_mode m =
    text_eq m (codes "original")
    || text_eq m (codes "sharp")
    || text_eq m (codes "day")
    || text_eq m (codes "night")

module _ (E : Env) where
  open E use {json, files}

  abbrev edit_of : Option json.Value → Edit json.Value
  edit_of none = throws
  edit_of (some v) = edited v

  -- menu_type 0 and 1; `stale` is what the local variable holds before the extraction.
  unfoldable pub edit_flag : ℤ → Stream → String → json.Value → Edit json.Value
  edit_flag stale s key config =
      let (bool_val, s') = read_int stale s in
      if s'.failed || (not (is_int bool_val 0) && not (is_int bool_val 1))
      then refuse 400 "Invalid boolean value"
      else edit_of (json.set config key (json.bool (is_int bool_val 1)))

  abbrev edit_sharpness : ℤ → Stream → json.Value → Edit json.Value
  edit_sharpness stale s config =
      let (sharpness_val, s') = read_int stale s in
      if s'.failed || is_neg sharpness_val || exceeds sharpness_val 100
      then refuse 400 "Invalid sharpness level (0~100)"
      else edit_of (json.set config "sharpness_level" (json.int sharpness_val))

  -- `config["mode"] = mode_val`, and what follows if it does not throw
  abbrev edit_sharp : ℤ → Stream → Text → Option json.Value → Edit json.Value
  edit_sharp stale s mode_val none = throws
  edit_sharp stale s mode_val (some config) =
      if text_eq mode_val (codes "sharp")
      then edit_sharpness stale s config
      else edit_of (json.erase config "sharpness_level")

  -- menu_type 2
  unfoldable pub edit_mode : ℤ → Stream → json.Value → Edit json.Value
  edit_mode stale s config =
      let (mode_val, s') = read_word [] s in
      if s'.failed || not (known_mode mode_val)
      then refuse 400 "Invalid mode value"
      else edit_sharp stale s' mode_val (json.set config "mode" (json.string mode_val))

  unfoldable pub edit : ℤ → ℤ → Stream → json.Value → Edit json.Value
  edit stale menu_type s config =
      if is_int menu_type 0
      then edit_flag stale s "show_bbox" config
      else if is_int menu_type 1
      then edit_flag stale s "show_timestamp" config
      else if is_int menu_type 2
      then edit_mode stale s config
      else refuse 400 "Unknown menu_type"

  -- The file is emptied when it is opened, before the text is made.
  abbrev save_text : files.Disk → Option Text → World E → Result Response × World E
  save_text disk none w = (fault uncaught, record w { disk = disk })
  save_text disk (some text) w = (
    ok (success 200 "Overlay config updated"),
    record w { disk = files.append disk config_path text },
  )

  abbrev save_on : Option files.Disk → json.Value → Exec (World E) Response
  save_on none config w = (ok (error 500 "Failed to write overlay_config"), w)
  save_on (some disk) config w = save_text disk (json.dump config) w

  abbrev pub finish_edit : Edit json.Value → Exec (World E) Response
  finish_edit (refuse n message) w = (ok (error n message), w)
  finish_edit throws w = (fault uncaught, w)
  finish_edit (edited config) w = save_on (files.create w.disk config_path) config w

  abbrev change_parsed : ℤ → Stream → Option json.Value → Exec (World E) Response
  change_parsed menu_type s none w = (ok (error 500 "Failed to parse overlay_config"), w)
  change_parsed menu_type s (some config) w = finish_edit (edit w.stale_int menu_type s config) w

  abbrev pub parse_file : Option Text → Option json.Value
  parse_file none = none
  parse_file (some text) = json.parse text

  -- A read that fails before the end throws, and is caught as an exception of the parser is.
  abbrev change_read : ℤ → Stream → Option Text → Option (ℕ × Text) → Exec (World E) Response
  change_read menu_type s none none w = (ok (error 500 "Failed to open overlay_config"), w)
  change_read menu_type s none (some _) w = change_parsed menu_type s none w
  change_read menu_type s (some text) _ w = change_parsed menu_type s (json.parse text) w

  unfoldable pub handle_change_frame : Text → Exec (World E) Response
  unfolding edit edit_flag edit_mode open_stream
  handle_change_frame payload w =
      let (menu_type, s) = read_int w.stale_int (open_stream payload) in
      if s.failed
      then (ok (error 400 "Invalid input format"), w)
      else change_read menu_type s (files.read w.disk config_path)
          (files.unreadable w.disk config_path) w

  abbrev pub finished : Option Text → Result Response
  finished none = fault uncaught
  finished (some text) = ok (dumped text)

  abbrev pub file_document : String → json.Value → Option Text
  file_document message config = json.dump (
      json.object (
        ("status", json.string (codes "success"))
        ∷ ("code", json.int (pos 200))
        ∷ ("message", json.string (codes message))
        ∷ ("data", config)
        ∷ []))

  abbrev show_parsed : String → String → Option json.Value → Result Response
  show_parsed bad message none = ok (error 500 bad)
  show_parsed bad message (some config) = finished (file_document message config)

  abbrev show_read : String → String → String → Option Text → Option (ℕ × Text) → Result Response
  show_read closed bad message none none = ok (error 500 closed)
  show_read closed bad message none (some _) = show_parsed bad message none
  show_read closed bad message (some text) _ = show_parsed bad message (json.parse text)

  unfoldable pub handle_get_frame : Text → Exec (World E) Response
  handle_get_frame payload w = (
    show_read "Failed to open overlay_config" "Failed to parse overlay_config"
        "Overlay config retrieved" (files.read w.disk config_path)
        (files.unreadable w.disk config_path),
    w,
  )

  unfoldable pub handle_get_log : Text → Exec (World E) Response
  handle_get_log payload w = (
    show_read "Failed to open shm_status" "Failed to parse shm_status" "shm_status retrieved"
        (files.read w.disk status_path) (files.unreadable w.disk status_path),
    w,
  )

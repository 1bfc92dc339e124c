-- ===== src/Server/Overlay/Keeping.antt =====
-- The commands on the camera's settings keep the server's state sound.
use raspi_cctv_tcp_server.Prelude.{
  ℕ, Option, none, some, [], Text, ℤ, ◌≡◌, refl, Bool-cases, inl, inr,
}
use raspi_cctv_tcp_server.Exec.Keeping.{Keeps}
use raspi_cctv_tcp_server.Stream.{Stream, open_stream, read_int}
use raspi_cctv_tcp_server.Db.Contract.{Tables}
use raspi_cctv_tcp_server.Server.Env.{Env, World}
use raspi_cctv_tcp_server.Server.Overlay.Contract.{FilesContract, JsonContract}
use raspi_cctv_tcp_server.Server.Overlay.Settings.{IsSettled, edit-IsSettled, written_parses}
use raspi_cctv_tcp_server.Server.Soundness.{IsSound, SettledIfAny}
use raspi_cctv_tcp_server.Server.Overlay.{
  Edit, refuse, throws, edited, edit, save_text, save_on, finish_edit, change_parsed, change_read,
  handle_change_frame, handle_get_frame, handle_get_log, config_path, parse_file,
}

module _ (E : Env) (T : Tables E.sqlite) (json : JsonContract E.json)
    (files : FilesContract E.files) (empty_fails : E.json.parse [] ≡ none) where
  abbrev Sound : World E → Type 0
  Sound = IsSound E T json

  -- A state in which only the settings' file may have changed, and holds this.
  rewritten :
      (w : World E) (disk : E.files.Disk) (text : Text)
      → E.files.read disk config_path ≡ some text
      → SettledIfAny E T json (E.json.parse text)
      → Sound w
      → Sound (record w { disk = disk })
  rewritten w disk text holds settled s = record {
    keyed = s.keyed;
    rows = s.rows;
    config = rw holds settled;
  }

  saved :
      (w : World E) (d d' : E.files.Disk) (text : Option Text) (v : E.json.Value)
      → E.files.create d config_path ≡ some d'
      → E.json.dump v ≡ text
      → IsSettled E json v
      → Sound w
      → Sound (save_text E d' text w).1
  saved w d d' none v made e settled s =
      rewritten w d' [] (files.read-create d d' config_path made) (rw empty_fails tt) s
  saved w d d' (some text) v made e settled s =
      let (u, r, whole, holds) =
        files.read-append d' config_path [] text (files.read-create d d' config_path made) in
      let (m, (known, mode, level)) = settled in
      rewritten w (E.files.append d' config_path text) u holds
        (elim (written_parses E json v text u r ("mode", E.json.string m, mode) e whole) [
          | inl torn ↦ rw torn tt
          | inr all ↦ rw (all, json.parse-dump v text e) settled
        ])
        s

  saved_on :
      (w : World E) (made : Option E.files.Disk) (v : E.json.Value)
      → E.files.create w.disk config_path ≡ made
      → IsSettled E json v
      → Sound w
      → Sound (save_on E made v w).1
  saved_on w none v e settled s = s
  saved_on w (some d) v e settled s = saved w w.disk d (E.json.dump v) v e refl settled s

  edits :
      (menu_type : ℤ) (r : Stream) (v : E.json.Value) (w : World E) (o : Edit E.json.Value)
      → edit E w.stale_int menu_type r v ≡ o
      → IsSettled E json v
      → Sound w
      → Sound (finish_edit E o w).1
  edits menu_type r v w (refuse n message) e settled s = s
  edits menu_type r v w throws e settled s = s
  edits menu_type r v w (edited v') e settled s =
      saved_on w (E.files.create w.disk config_path) v' refl
        (edit-IsSettled E json w.stale_int menu_type r v v' e settled) s

  parsed :
      (menu_type : ℤ) (r : Stream) (config : Option E.json.Value) (w : World E)
      → SettledIfAny E T json config
      → Sound w
      → Sound (change_parsed E menu_type r config w).1
  parsed menu_type r none w settled s = s
  parsed menu_type r (some v) w settled s = edits menu_type r v w _ refl settled s

  read_Sound :
      (menu_type : ℤ) (r : Stream) (text : Option Text) (cut : Option (ℕ × Text)) (w : World E)
      → SettledIfAny E T json (parse_file E text)
      → Sound w
      → Sound (change_read E menu_type r text cut w).1
  read_Sound menu_type r none none w settled s = s
  read_Sound menu_type r none (some x) w settled s = s
  read_Sound menu_type r (some text) cut w settled s =
      parsed menu_type r (E.json.parse text) w settled s

  pub handle_change_frame-Keeps : (payload : Text) → Keeps Sound (handle_change_frame E payload)
  unfolding handle_change_frame
  handle_change_frame-Keeps payload w s =
      let (menu_type, r) = read_int w.stale_int (open_stream payload) in
      elim (Bool-cases r.failed) [
        | inl bad ↦ rw bad s
        | inr good ↦ rw good (
            read_Sound menu_type r (E.files.read w.disk config_path)
              (E.files.unreadable w.disk config_path) w s.config s)
      ]

  pub handle_get_frame-Keeps : (payload : Text) → Keeps Sound (handle_get_frame E payload)
  unfolding handle_get_frame
  handle_get_frame-Keeps payload w s = s

  pub handle_get_log-Keeps : (payload : Text) → Keeps Sound (handle_get_log E payload)
  unfolding handle_get_log
  handle_get_log-Keeps payload w s = s

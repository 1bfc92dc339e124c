-- ===== src/Server/Overlay/Changes.antt =====
-- What CHANGE_FRAME does to the file, and what GET_FRAME shows of it.
use raspi_cctv_tcp_server.Prelude.{
  ℕ, true, false, c_str, ◌⊎◌, ◌++◌, Option, none, some, String, Text, ℤ, ◌≡◌, ◌≢◌, refl, arith, [],
  Bool-cases, inl, inr, ◌∙◌,
}
use raspi_cctv_tcp_server.Exec.{Result, ok}
use raspi_cctv_tcp_server.Stream.{Stream, open_stream, read_int}
use raspi_cctv_tcp_server.Server.Env.{Env, World}
use raspi_cctv_tcp_server.Server.Response.{Response, error, success}
use raspi_cctv_tcp_server.Server.Overlay.{
  Edit, refuse, throws, edited, config_path, edit, handle_change_frame, parse_file, file_document,
  finished, finish_edit, change_read, change_parsed, save_text, save_on,
}
use raspi_cctv_tcp_server.Server.Overlay.Contract.{FilesContract, JsonContract}

module _ (E : Env) where
  finish_edit_error :
      (e : Edit E.json.Value) (w : World E) (n : ℕ) (m : String)
      → (finish_edit E e w).0 ≡ ok (error n m)
      → (finish_edit E e w).1 ≡ w
  finish_edit_error e w n m h = ground arith

  change_read_error :
      (menu_type : ℤ) (s : Stream) (o : Option Text) (cut : Option (ℕ × Text)) (w : World E) (n : ℕ)
      (m : String)
      → (change_read E menu_type s o cut w).0 ≡ ok (error n m)
      → (change_read E menu_type s o cut w).1 ≡ w
  change_read_error menu_type s none none w n m h = refl
  change_read_error menu_type s none (some x) w n m h = refl
  change_read_error menu_type s (some text) cut w n m h = parsed (E.json.parse text) h
    where
      parsed :
          (c : Option E.json.Value)
          → (change_parsed E menu_type s c w).0 ≡ ok (error n m)
          → (change_parsed E menu_type s c w).1 ≡ w
      parsed none h = refl
      parsed (some config) h = finish_edit_error (edit E w.stale_int menu_type s config) w n m h

  -- A CHANGE_FRAME that is answered with an error has changed nothing.
  pub handle_change_frame_error :
      (payload : Text) (w : World E) (n : ℕ) (m : String)
      → (handle_change_frame E payload w).0 ≡ ok (error n m)
      → (handle_change_frame E payload w).1 ≡ w
  unfolding handle_change_frame
  handle_change_frame_error payload w n m h =
      let r = read_int w.stale_int (open_stream payload) in
      ground (
        arith,
        change_read_error r.0 r.1 (E.files.read w.disk config_path)
            (E.files.unreadable w.disk config_path) w n m,
      )

  wrong :
      Path
        (Result Response)
        (ok (error 400 "Invalid input format"))
        (ok (success 200 "Overlay config updated"))
      → ⊥
  wrong h = cc

  -- The settings before and after an accepted change, and the text that was written.
  pub record Change : Type 0 where
    pub before : E.json.Value
    pub after : E.json.Value
    pub text : Text
    pub menu_type : ℤ
    pub rest : Stream

  module _ (files : FilesContract E.files) where
    -- The file held `before`, the edit made `after` of it, and the file now holds its text, or a
    -- first part of it if the stream is not good; no other file and nothing in the database has
    -- changed.
    pub record Replaces (w w' : World E) (c : Change) : Type 0 where
      pub parsed : parse_file E (E.files.read w.disk config_path) ≡ some c.before
      pub edits : edit E w.stale_int c.menu_type c.rest c.before ≡ edited c.after
      pub dumps : E.json.dump c.after ≡ some c.text
      pub kept : Text
      pub lost : Text
      pub parts : kept ++ lost ≡ c.text
      pub written : E.files.read w'.disk config_path ≡ some kept
      pub whole :
          E.files.closes_well w'.disk config_path ≡ true
          → E.files.read w'.disk config_path ≡ some c.text
      pub others :
          (p : Text) → c_str config_path ≢ c_str p → E.files.read w'.disk p ≡ E.files.read w.disk p
      pub db : w'.db ≡ w.db

    saved :
        (menu_type : ℤ) (s : Stream) (config config' : E.json.Value) (w : World E)
        → parse_file E (E.files.read w.disk config_path) ≡ some config
        → edit E w.stale_int menu_type s config ≡ edited config'
        → (finish_edit E (edited config') w).0 ≡ ok (success 200 "Overlay config updated")
        → (c : Change) × Replaces w (finish_edit E (edited config') w).1 c
    saved menu_type s config config' w p e h = at_create (E.files.create w.disk config_path) refl h
      where
        at_dump :
            (d : E.files.Disk) (t : Option Text)
            → E.files.create w.disk config_path ≡ some d
            → E.json.dump config' ≡ t
            → (save_text E d t w).0 ≡ ok (success 200 "Overlay config updated")
            → (c : Change) × Replaces w (save_text E d t w).1 c
        at_dump d none made q h = cc
        at_dump d (some text) made q h =
            let empty = files.read-create w.disk d config_path made in
            let (u, r, both, holds) = files.read-append d config_path [] text empty in
            (
              record {
                before = config;
                after = config';
                text = text;
                menu_type = menu_type;
                rest = s;
              },
              record {
                parsed = p;
                edits = e;
                dumps = q;
                kept = u;
                lost = r;
                parts = both;
                written = holds;
                whole = λ good. files.read-append_good d config_path [] text good empty;
                others = λ p' ne.
                    files.read-append_ne d config_path p' text ne
                    ∙ files.read-create_ne w.disk d config_path p' made ne;
                db = refl;
              },
            )

        at_create :
            (o : Option E.files.Disk)
            → E.files.create w.disk config_path ≡ o
            → (save_on E o config' w).0 ≡ ok (success 200 "Overlay config updated")
            → (c : Change) × Replaces w (save_on E o config' w).1 c
        at_create none made h = cc
        at_create (some d) made h = at_dump d (E.json.dump config') made refl h

    change_read_success :
        (menu_type : ℤ) (s : Stream) (w : World E)
        → (change_read E menu_type s
            (E.files.read w.disk config_path)
            (E.files.unreadable w.disk config_path)
            w).0
          ≡ ok (success 200 "Overlay config updated")
        → (c : Change) × Replaces w
            (change_read E menu_type s
              (E.files.read w.disk config_path)
              (E.files.unreadable w.disk config_path)
              w).1
            c
    change_read_success menu_type s w h =
        at_read (E.files.read w.disk config_path) (E.files.unreadable w.disk config_path) refl h
      where
        at_edit :
            (config : E.json.Value) (e : Edit E.json.Value)
            → parse_file E (E.files.read w.disk config_path) ≡ some config
            → edit E w.stale_int menu_type s config ≡ e
            → (finish_edit E e w).0 ≡ ok (success 200 "Overlay config updated")
            → (c : Change) × Replaces w (finish_edit E e w).1 c
        at_edit config (refuse n m) p q h = cc
        at_edit config throws p q h = cc
        at_edit config (edited config') p q h = saved menu_type s config config' w p q h

        at_parse :
            (c : Option E.json.Value)
            → parse_file E (E.files.read w.disk config_path) ≡ c
            → (change_parsed E menu_type s c w).0 ≡ ok (success 200 "Overlay config updated")
            → (c' : Change) × Replaces w (change_parsed E menu_type s c w).1 c'
        at_parse none p h = cc
        at_parse (some config) p h = at_edit config (edit E w.stale_int menu_type s config) p refl h

        at_read :
            (o : Option Text) (cut : Option (ℕ × Text))
            → E.files.read w.disk config_path ≡ o
            → (change_read E menu_type s o cut w).0 ≡ ok (success 200 "Overlay config updated")
            → (c : Change) × Replaces w (change_read E menu_type s o cut w).1 c
        at_read none none q h = cc
        at_read none (some x) q h = cc
        at_read (some text) cut q h = at_parse (E.json.parse text) (rw q refl) h

    -- A CHANGE_FRAME that is answered with success has replaced the file's settings by the edited
    -- ones, and has changed no other file and nothing in the database.
    pub handle_change_frame_success :
        (payload : Text) (w : World E)
        → (handle_change_frame E payload w).0 ≡ ok (success 200 "Overlay config updated")
        → (c : Change) × Replaces w (handle_change_frame E payload w).1 c
    unfolding handle_change_frame
    handle_change_frame_success payload w h =
        let r = read_int w.stale_int (open_stream payload) in
        elim (Bool-cases r.1.failed) [
          | inl bad ↦ absurd (wrong (rw bad at h))
          | inr good ↦ rw good (change_read_success r.0 r.1 w (rw good at h))
        ]

    module _ (json : JsonContract E.json) where
      -- GET_FRAME replies with the settings, or, when the write was not complete, with an error.
      abbrev pub Shows : World E → E.json.Value → Result Response → Type 0
      Shows w v r =
          (r ≡ finished E (file_document E "Overlay config retrieved" v))
          ⊎ ((E.files.closes_well w.disk config_path ≡ false)
              × (r ≡ ok (error 500 "Failed to parse overlay_config")))

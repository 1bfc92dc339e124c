-- ===== src/Server/Session/Keeping.antt =====
-- A client's session keeps the server's state sound.
use raspi_cctv_tcp_server.Prelude.{
  ℕ, c_str, zero, suc, ◌||◌, ◌%◌, ◌^◌, Option, none, some, Bool, [], ◌∷◌, Text, codes, ◌≡◌, ◌≢◌, ap,
  arith, is_empty, text_eq, starts_with, ◌==◌, Bool-cases, inl, inr,
}
use raspi_cctv_tcp_server.Exec.{Result, ok, fault}
use raspi_cctv_tcp_server.Stream.{open_stream, read_word, read_size}
use raspi_cctv_tcp_server.Db.Contract.{Tables}
use raspi_cctv_tcp_server.Db.Contract.Outcomes.{Outcomes}
use raspi_cctv_tcp_server.Server.Env.{Env}
use raspi_cctv_tcp_server.Server.Response.{Response}
use raspi_cctv_tcp_server.Server.Net.{Tls, Link}
use raspi_cctv_tcp_server.Server.Overlay.{config_path}
use raspi_cctv_tcp_server.Server.Overlay.Contract.{FilesContract, JsonContract}
use raspi_cctv_tcp_server.Server.Soundness.{IsSound}
use raspi_cctv_tcp_server.Server.Commands.{handle}
use raspi_cctv_tcp_server.Server.Commands.Keeping.{handle-Keeps}
use raspi_cctv_tcp_server.Server.Images.{full_path, handle_image_upload, handle_get_image}
use raspi_cctv_tcp_server.Server.Images.Keeping.{Spares, handle_image_upload-Spares}
use raspi_cctv_tcp_server.Server.Session.{
  Input, ended, starved, command, Next, again, returned, answer, with_world, serve_upload,
  image_sent, serve_image, serve_command, read_command, on_served, on_input, handle_client,
}

abbrev first_char : Text → ℕ
first_char [] = 0
first_char (c ∷ s) = c

-- One begins with an i, the other with a slash.
no_config : (filename : Text) → c_str (full_path filename) ≢ c_str config_path
unfolding c_str
no_config filename h = let e : b'i' ≡ b'/' = ap first_char h in omega (arith, e)

module _ (E : Env) (N : Tls) (T : Tables E.sqlite) (json : JsonContract E.json)
    (outcomes : Outcomes E.sqlite T) (files : FilesContract E.files)
    (empty_fails : E.json.parse [] ≡ none) where
  abbrev Sound : Link E N → Type 0
  Sound l = IsSound E T json l.world

  answer-Sound : (o : Result Response × Link E N) → Sound o.1 → Sound (answer E N o).1
  answer-Sound (ok r, l) s = s
  answer-Sound (fault f, l) s = s

  spared : (l l' : Link E N) → Spares E N files config_path l l' → Sound l → Sound l'
  spared l l' p s = record {
    keyed = rw p.db s.keyed;
    rows = rw p.db s.rows;
    config = rw p.kept s.config;
  }

  serve_upload-Sound : (cmd : Text) (l : Link E N) → Sound l → Sound (serve_upload E N cmd l).1
  unfolding serve_upload
  serve_upload-Sound cmd l s =
      let (tag, s1) = read_word [] (open_stream cmd) in
      let (filename, s2) = read_word [] s1 in
      let filesize = (read_size (l.world.stale_size % 2 ^ 64) s2).0 in
      elim (Bool-cases (is_empty filename || filesize == 0)) [
        | inl bad ↦ rw bad s
        | inr good ↦ rw good (
            answer-Sound (handle_image_upload E N filename filesize l) (
              spared l _
                (handle_image_upload-Spares E N files config_path filename filesize l
                  (no_config filename))
                s))
      ]

  image_sent-Sound : (o : Option N.Conn) (l : Link E N) → Sound l → Sound (image_sent E N o l).1
  image_sent-Sound none l s = s
  image_sent-Sound (some c) l s = s

  serve_image-Sound : (cmd : Text) (l : Link E N) → Sound l → Sound (serve_image E N cmd l).1
  unfolding serve_image
  serve_image-Sound cmd l s =
      let (tag, s1) = read_word [] (open_stream cmd) in
      let image_path = (read_word [] s1).0 in
      elim (Bool-cases (is_empty image_path)) [
        | inl bad ↦ rw bad s
        | inr good ↦ rw good (image_sent-Sound (handle_get_image E N image_path l) l s)
      ]

  serve_command-Sound : (cmd : Text) (l : Link E N) → Sound l → Sound (serve_command E N cmd l).1
  unfolding serve_command
  serve_command-Sound cmd l s = elim (Bool-cases (text_eq cmd (10 ∷ []))) [
    | inl blank ↦ rw blank s
    | inr line ↦ rw line (elim (Bool-cases (starts_with cmd (codes "UPLOAD"))) [
      | inl upload ↦ rw upload (serve_upload-Sound cmd l s)
      | inr other ↦ rw other (elim (Bool-cases (starts_with cmd (codes "GET_IMAGE"))) [
        | inl image ↦ rw image (serve_image-Sound cmd l s)
        | inr text ↦ rw text (
            answer-Sound (with_world E N (handle E cmd l.world) l)
              (handle-Keeps E T json outcomes files empty_fails cmd l.world s))
      ])
    ])
  ]

  on_served-Sound :
      (loop : Link E N → Result Bool × Link E N) (o : Result Next × Link E N)
      → ((l : Link E N) → Sound l → Sound (loop l).1)
      → Sound o.1
      → Sound (on_served E N loop o).1
  on_served-Sound loop (ok again, l) h s = h l s
  on_served-Sound loop (ok (returned b), l) h s = s
  on_served-Sound loop (fault f, l) h s = s

  on_input-Sound :
      (loop : Link E N → Result Bool × Link E N) (i : Input × N.Conn) (l : Link E N)
      → ((l' : Link E N) → Sound l' → Sound (loop l').1)
      → Sound l
      → Sound (on_input E N loop i l).1
  on_input-Sound loop (ended, c) l h s = s
  on_input-Sound loop (starved, c) l h s = s
  on_input-Sound loop (command cmd, c) l h s =
      on_served-Sound loop (serve_command E N cmd (record l { conn = c })) h
        (serve_command-Sound cmd (record l { conn = c }) s)

  -- Let no two users share a key or an address, let each row of the history have the event type 0,
  -- 1 or 2, and a speed only with type 1, and let the file of settings, if it can be read to its
  -- end and parsed, have a known mode, and a sharpness level from 0 to 100 exactly with the mode
  -- "sharp". Then the same holds after a client's session, and at any point where its loop is cut
  -- off: whatever the client sends, whether SQLite's calls, the connection's and the disk's succeed
  -- or fail, a write to the disk that is torn off included, and whether the session returns or ends
  -- in a fault. SQLite is relied on only for what a single step can do to a table, the disk only
  -- for a write that leaves the text or a first part of it, and the json library also for failing
  -- on an empty text and on the text of an object that lacks its end.
  pub handle_client-IsSound :
      (fuel : ℕ) (l : Link E N)
      → IsSound E T json l.world
      → IsSound E T json (handle_client E N fuel l).1.world
  unfolding handle_client
  handle_client-IsSound zero l s = s
  handle_client-IsSound (suc fuel) l s =
      on_input-Sound (handle_client E N fuel) (read_command E N (suc fuel) [] l.conn) l
        (λ l' h. handle_client-IsSound fuel l' h) s

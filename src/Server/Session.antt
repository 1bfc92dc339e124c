-- ===== src/Server/Session.antt =====
-- src/server/TcpServer.cpp: handleClientSSL, what a client's thread does with its connection. The
-- image handler is set, as src/main.cpp sets it.
pub mod Commands
pub mod Dispatch
pub mod Ends
pub mod Returns
pub mod Pictures
pub mod RoundTrip
pub mod Reading
pub mod Pipeline
pub mod Keeping
pub mod Framing
use raspi_cctv_tcp_server.Prelude.{
  ℕ, zero, suc, ◌%◌, ◌^◌, Option, none, some, Bool, true, false, ◌||◌, List, [], ◌∷◌, ◌++◌, Text,
  codes, text_eq, is_empty, starts_with, ◌==◌, if◌then◌else◌,
}
use raspi_cctv_tcp_server.Exec.{Result, ok, fault, no_fuel}
use raspi_cctv_tcp_server.Stream.{open_stream, read_word, read_size}
use raspi_cctv_tcp_server.Server.Env.{Env, World}
use raspi_cctv_tcp_server.Server.Response.{Response, error, render}
use raspi_cctv_tcp_server.Server.Commands.Class.{command_handler}
use raspi_cctv_tcp_server.Server.Images.{image_handler}
use raspi_cctv_tcp_server.Server.Net.{Tls, Received, nothing, bytes, Link, send}

-- The bytes of a line with its line feed, or the end of the connection; `starved` means that the
-- fuel ran out.
pub data Input : Type 0 where
  ended starved : Input
  command : Text → Input

-- Does the client's loop go on, or return?
pub data Next : Type 0 where
  again : Next
  returned : Bool → Next

unfoldable pub ends_in_feed : Text → Bool
ends_in_feed [] = false
ends_in_feed (c ∷ s) = let rest = ends_in_feed s in if is_empty s then c == 10 else rest

-- if (resp.back() != '\n') resp.push_back('\n');
unfoldable pub with_line_feed : Text → Text
unfolding ends_in_feed
with_line_feed t = if ends_in_feed t then t else t ++ 10 ∷ []

-- The raw string literal ends in a backslash and the letter n.
abbrev refused_upload : Text
refused_upload =
    codes "{\"status\":\"error\",\"code\":400,\"message\":\"Invalid filename or filesize\"}\\n"

module _ (E : Env) (N : Tls) where
  -- What SSL_read gave: the connection's end, the line feed, or a byte of the line.
  abbrev on_char : (Text → N.Conn → Input × N.Conn) → Text → Received × N.Conn → Input × N.Conn
  on_char loop cmd (nothing, c) = (ended, c)
  on_char loop cmd (bytes ch more, c) = elim (ch == 10) [
    | true ↦ (command (cmd ++ ch ∷ []), c)
    | false ↦ loop (cmd ++ ch ∷ []) c
  ]

  -- The inner `while (true)`, with one unit of fuel for each SSL_read.
  unfoldable pub read_command : ℕ → Text → N.Conn → Input × N.Conn
  read_command zero cmd c = (starved, c)
  read_command (suc fuel) cmd c = on_char (read_command fuel) cmd (N.read c 1)

  -- A reply with its line feed; a fault ends the thread.
  abbrev pub answer : Result Response × Link E N → Result Next × Link E N
  answer (ok r, l) = (ok again, send E N (with_line_feed (render r)) l)
  answer (fault f, l) = (fault f, l)

  abbrev pub with_world : Result Response × World E → Link E N → Result Response × Link E N
  with_world (r, w) l = (r, record l { world = w })

  unfoldable pub serve_upload : Text → Link E N → Result Next × Link E N
  unfolding open_stream with_line_feed render
  serve_upload cmd l =
      let (tag, s1) = read_word [] (open_stream cmd) in
      let (filename, s2) = read_word [] s1 in
      let (filesize, _) = read_size (l.world.stale_size % 2 ^ 64) s2 in
      if is_empty filename || filesize == 0
      then (ok again, send E N refused_upload l)
      else answer ((image_handler E N).handle_image_upload filename filesize l)

  abbrev image_sent : Option N.Conn → Link E N → Result Next × Link E N
  image_sent none l = (fault no_fuel, l)
  image_sent (some c) l = (ok (returned true), record l { conn = c })

  unfoldable pub serve_image : Text → Link E N → Result Next × Link E N
  unfolding open_stream render
  serve_image cmd l =
      let (tag, s1) = read_word [] (open_stream cmd) in
      let (image_path, _) = read_word [] s1 in
      if is_empty image_path
      then (ok (returned false), send E N (render (error 400 "Missing image path")) l)
      else image_sent ((image_handler E N).handle_get_image image_path l) l

  -- The rest of the outer loop's body, once a command has been read.
  unfoldable pub serve_command : Text → Link E N → Result Next × Link E N
  unfolding serve_upload serve_image with_line_feed render starts_with text_eq
  serve_command cmd l =
      if text_eq cmd (10 ∷ [])
      then (ok again, l)
      else if starts_with cmd (codes "UPLOAD")
      then serve_upload cmd l
      else if starts_with cmd (codes "GET_IMAGE")
      then serve_image cmd l
      else answer (with_world ((command_handler E N).handle cmd l.world) l)

  abbrev on_served :
      (Link E N → Result Bool × Link E N) → Result Next × Link E N → Result Bool × Link E N
  on_served loop (ok again, l) = loop l
  on_served loop (ok (returned b), l) = (ok b, l)
  on_served loop (fault f, l) = (fault f, l)

  abbrev on_input :
      (Link E N → Result Bool × Link E N) → Input × N.Conn → Link E N → Result Bool × Link E N
  on_input loop (ended, c) l = (ok false, record l { conn = c })
  on_input loop (starved, c) l = (fault no_fuel, record l { conn = c })
  on_input loop (command cmd, c) l = on_served loop (serve_command cmd (record l { conn = c }))

  -- The outer `while (true)`: `fuel` bounds its rounds, and the bytes of each line.
  unfoldable pub handle_client : ℕ → Link E N → Result Bool × Link E N
  unfolding read_command serve_command
  handle_client zero l = (fault no_fuel, l)
  handle_client (suc fuel) l = on_input (handle_client fuel) (read_command (suc fuel) [] l.conn) l

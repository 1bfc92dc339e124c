-- ===== src/Server/Images.antt =====
-- src/server/ImageHandler.cpp: the upload of an image and the sending of one.
pub mod Receiving
pub mod Upload
pub mod Sending
pub mod Draining
pub mod Effects
pub mod Keeping
use raspi_cctv_tcp_server.Prelude.{
  ℕ, zero, suc, ◌+◌, ◌-◌, ◌%◌, ◌^◌, min, Option, none, some, Bool, true, false, ◌||◌, List, [], ◌∷◌,
  ◌++◌, String, Text, codes, is_empty, has_char, contains, length, take, drop, ltb, ◌==◌,
  if◌then◌else◌,
}
use raspi_cctv_tcp_server.Exec.{Result, ok, fault, uncaught, no_fuel}
use raspi_cctv_tcp_server.Endian.{htonll, bytes_le}
use raspi_cctv_tcp_server.Server.Env.{Env, World}
use raspi_cctv_tcp_server.Server.Response.{Response, error, image_error, uploaded, render}
use raspi_cctv_tcp_server.Server.Net.{Tls, Received, nothing, bytes, Link, send, with_disk}

abbrev pub chunk_size : ℕ
chunk_size = 4096

abbrev pub images_dir : Text
images_dir = codes "images"

abbrev pub full_path : Text → Text
full_path filename = codes "images/" ++ filename

-- Is the name refused, for its size or for what it holds?
unfoldable pub bad_upload : Text → ℕ → Bool
unfolding contains has_char
bad_upload filename filesize =
    is_empty filename
    || filesize == 0
    || contains filename (codes "..")
    || has_char b'/' filename
    || has_char b'\\' filename

module _ (E : Env) (N : Tls) where
  open E use {files}

  -- std::filesystem::remove, and then the reply
  abbrev on_removed : Response → Link E N → Option files.Disk → Result Response × Link E N
  on_removed reply l none = (fault uncaught, l)
  on_removed reply l (some disk) = (ok reply, with_disk E N disk l)

  abbrev pub give_up : Text → String → Link E N → Result Response × Link E N
  give_up path message l = on_removed (image_error 500 message) l (files.remove l.world.disk path)

  abbrev close_file : Text → Link E N → Result Response × Link E N
  close_file path l =
      if files.closes_well l.world.disk path
      then (ok (uploaded path), l)
      else give_up path "Failed to write file completely" l

  -- What SSL_read gave: the upload is given up, or the bytes are written and the loop goes on.
  abbrev on_received :
      Text
      → ℕ
      → (ℕ → Link E N → Result Response × Link E N)
      → Link E N
      → Received × N.Conn
      → Result Response × Link E N
  on_received path total loop l (nothing, conn) =
      give_up path "Read error while receiving file" (record l { conn = conn })
  on_received path total loop l (bytes b bs, conn) =
      loop ((total + length (b ∷ bs)) % 2 ^ 64)
        (with_disk E N (files.append l.world.disk path (b ∷ bs)) (record l { conn = conn }))

  -- `while (totalBytesRead < filesize)`, with one unit of fuel for each round.
  unfoldable pub receive : ℕ → Text → ℕ → ℕ → Link E N → Result Response × Link E N
  receive zero path filesize total l = (fault no_fuel, l)
  receive (suc fuel) path filesize total l = elim (ltb total filesize) [
    | false ↦ close_file path l
    | true ↦
        on_received path total (receive fuel path filesize) l
          (N.read l.conn (min chunk_size (filesize - total)))
  ]

  abbrev receive_into : Option files.Disk → Text → ℕ → Link E N → Result Response × Link E N
  receive_into none path filesize l = (ok (image_error 500 "Failed to open file for writing"), l)
  receive_into (some disk) path filesize l =
      receive (suc filesize) path filesize 0 (with_disk E N disk l)

  -- `if (std::filesystem::exists(fullPath))`, and what follows it
  abbrev upload_if : Option Bool → Text → ℕ → Link E N → Result Response × Link E N
  upload_if none filename filesize l = (fault uncaught, l)
  upload_if (some true) filename filesize l = (ok (image_error 409 "File already exists"), l)
  upload_if (some false) filename filesize l =
      receive_into (files.create l.world.disk (full_path filename)) (full_path filename) filesize l

  abbrev upload_new : Text → ℕ → Link E N → Result Response × Link E N
  upload_new filename filesize l =
      if bad_upload filename filesize
      then (ok (image_error 400 "Invalid filename or filesize"), l)
      else upload_if (files.exists l.world.disk (full_path filename)) filename filesize l

  -- The link with the directory, or `none` when std::filesystem throws.
  abbrev made_dir : Option files.Disk → Link E N → Option (Link E N)
  made_dir none l = none
  made_dir (some disk) l = some (with_disk E N disk l)

  abbrev dir_if : Option Bool → Link E N → Option (Link E N)
  dir_if none l = none
  dir_if (some true) l = some l
  dir_if (some false) l = made_dir (files.create_directory l.world.disk images_dir) l

  abbrev pub make_images_dir : Link E N → Option (Link E N)
  make_images_dir l = dir_if (files.exists l.world.disk images_dir) l

  abbrev upload_in : Text → ℕ → Link E N → Option (Link E N) → Result Response × Link E N
  upload_in filename filesize l none = (fault uncaught, l)
  upload_in filename filesize l (some l') = upload_new filename filesize l'

  unfoldable pub handle_image_upload : Text → ℕ → Link E N → Result Response × Link E N
  unfolding receive bad_upload
  handle_image_upload filename filesize l = upload_in filename filesize l (make_images_dir l)

  -- `while (!file.eof())`. A read that fills less than the buffer has met the end, or, if `ends` is
  -- false, has failed: then it gives nothing, eof() stays false, and so does every later read.
  unfoldable pub send_chunks : Bool → ℕ → Text → N.Conn → Option N.Conn
  send_chunks ends zero rest c = none
  send_chunks ends (suc fuel) rest c =
      let o = N.write c (take chunk_size rest) in
      elim (ltb (length rest) chunk_size) [
        | false ↦ elim (o.0) [
          | false ↦ some o.1
          | true ↦ send_chunks ends fuel (drop chunk_size rest) o.1
        ]
        | true ↦ elim ends [
          | false ↦ send_chunks ends fuel rest c
          | true ↦ elim (is_empty rest) [ true ↦ some c | false ↦ some o.1 ]
        ]
      ]

  abbrev pub size_header : ℕ → Text
  size_header size = bytes_le 8 (htonll N.htonl size)

  abbrev pub send_content : Bool → Text → N.Conn → Bool × N.Conn → Option N.Conn
  send_content ends content c (false, c') = some c'
  send_content ends content c (true, c') = send_chunks ends (suc (length content)) content c'

  -- The stream is open if one of the two is given.
  abbrev pub send_file : Option Text → Option (ℕ × Text) → N.Conn → Option N.Conn
  send_file none none c = some (N.write c (render (error 404 "Image not found"))).1
  send_file none (some (size, content)) c =
      send_content false content c (N.write c (size_header (size % 2 ^ 64)))
  send_file (some content) _ c =
      send_content true content c (N.write c (size_header (length content)))

  -- `none` means that the fuel ran out.
  unfoldable pub handle_get_image : Text → Link E N → Option N.Conn
  unfolding send_chunks render htonll bytes_le
  handle_get_image image_path l =
      send_file (files.read l.world.disk image_path) (files.unreadable l.world.disk image_path)
        l.conn

-- The members of the class, for those who hold a pointer to a handler.
pub record ImageHandlerClass (E : Env) (N : Tls) : Type 0 where
  pub handle_image_upload : Text → ℕ → Link E N → Result Response × Link E N
  pub handle_get_image : Text → Link E N → Option N.Conn

abbrev pub image_handler : (E : Env) (N : Tls) → ImageHandlerClass E N
image_handler E N = record {
  handle_image_upload = λ filename filesize l. handle_image_upload E N filename filesize l;
  handle_get_image = λ image_path l. handle_get_image E N image_path l;
}

-- CommandHandler::handleGetImage, which hands the request on.
abbrev pub command_get_image :
    {E : Env} {N : Tls} → ImageHandlerClass E N → Text → Link E N → Option N.Conn
command_get_image handler image_path l = handler.handle_get_image image_path l

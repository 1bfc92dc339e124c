-- ===== src/Server/Images/Draining.antt =====
-- The upload's loop only takes bytes off the connection, and ends, whatever the disk does.
use raspi_cctv_tcp_server.Prelude.{
  ℕ, zero, suc, String, Bool, true, false, ◌+◌, ◌-◌, ◌%◌, ◌^◌, ◌≤◌, ◌<◌, min, Option, none, some,
  ◌∷◌, Text, ◌≡◌, refl, sym, ap, ◌∙◌, arith, length, length-append, ltb, Bool-cases, inl, inr,
}
use raspi_cctv_tcp_server.Exec.{Result}
use raspi_cctv_tcp_server.Exec.Fuel.{EndsIn, IsThrow}
use raspi_cctv_tcp_server.Server.Env.{Env}
use raspi_cctv_tcp_server.Server.Response.{Response, image_error}
use raspi_cctv_tcp_server.Server.Net.{Tls, TlsContract, Received, nothing, bytes, Link, with_disk}
use raspi_cctv_tcp_server.Server.Images.{
  chunk_size, on_removed, give_up, upload_if, dir_if, made_dir, upload_in, close_file, on_received,
  receive, receive_into, upload_new, handle_image_upload, bad_upload, full_path, images_dir,
}

module _ (E : Env) (N : Tls) (tls : TlsContract N) where
  open tls use {incoming}

  -- How many bytes the client has still to send.
  abbrev pub pending : Link E N → ℕ
  pending l = length (incoming l.conn)

  abbrev pub Drains : Link E N → Result Response × Link E N → Type 0
  Drains l o = EndsIn IsThrow o.0 × (pending o.1 ≤ pending l)

  give_up-Drains :
      (path : Text) (message : String) (l : Link E N) → Drains l (give_up E N path message l)
  give_up-Drains path message l = at_remove (E.files.remove l.world.disk path)
    where
      at_remove :
          (o : Option E.files.Disk) → Drains l (on_removed E N (image_error 500 message) l o)
      at_remove none = (tt, omega arith)
      at_remove (some d) = (tt, omega arith)

  close_file-Drains : (path : Text) (l : Link E N) → Drains l (close_file E N path l)
  close_file-Drains path l = elim (Bool-cases (E.files.closes_well l.world.disk path)) [
    | inl good ↦ rw good (tt, omega arith)
    | inr bad ↦ rw bad (give_up-Drains path "Failed to write file completely" l)
  ]

  receive-Drains :
      (fuel : ℕ) (path : Text) (filesize total : ℕ) (l : Link E N)
      → filesize < 2 ^ 64
      → total ≤ filesize
      → filesize - total < fuel
      → Drains l (receive E N fuel path filesize total l)
  unfolding receive
  receive-Drains zero path filesize total l small fits enough = elim enough [ ]
  receive-Drains (suc fuel) path filesize total l small fits enough =
      elim (Bool-cases (ltb total filesize)) [
        | inr full ↦ rw (full, receive) (close_file-Drains path l)
        | inl more ↦
            rw (more, receive)
              (at_read (N.read l.conn (min chunk_size (filesize - total))) refl (λ total' l' f g.
                receive-Drains fuel path filesize total' l' small f (omega arith)))
      ]
    where
      at_read :
          (x : Received × N.Conn)
          → N.read l.conn (min chunk_size (filesize - total)) ≡ x
          → ((total' : ℕ) (l' : Link E N)
              → total' ≤ filesize
              → filesize - total' < filesize - total
              → Drains l' (receive E N fuel path filesize total' l'))
          → Drains l (on_received E N path total (receive E N fuel path filesize) l x)
      at_read (nothing, c) e again =
          let same = (tls.read-nothing l.conn c _ e).0 in
          let (f, d) =
            give_up-Drains path "Read error while receiving file" (record l { conn = c }) in
          (f, omega (arith, ap length same, d))
      at_read (bytes b bs, c) e again =
          let (next, few, quiet) = tls.read-bytes l.conn c _ b bs e in
          let fewer : length (b ∷ bs) ≤ min chunk_size (filesize - total) = few in
          let l' =
            with_disk E N (E.files.append l.world.disk path (b ∷ bs)) (record l { conn = c }) in
          let sum : (total + length (b ∷ bs)) % 2 ^ 64 ≡ total + length (b ∷ bs) = ground arith in
          let all : length (b ∷ bs) + length (incoming c) ≡ pending l =
            sym (length-append (b ∷ bs) (incoming c)) ∙ ap length next in
          let (f, d) = again (total + length (b ∷ bs)) l' (ground arith) (ground arith) in
          rw sum (f, omega arith)

  module _ (filename : Text) (filesize : ℕ) (small : filesize < 2 ^ 64) where
    receive_into-Drains :
        (made : Option E.files.Disk) (path : Text) (l : Link E N)
        → Drains l (receive_into E N made path filesize l)
    receive_into-Drains none path l = (tt, omega arith)
    receive_into-Drains (some disk) path l =
        receive-Drains (suc filesize) path filesize 0 (with_disk E N disk l) small (omega arith)
          (omega arith)

    upload_if-Drains :
        (there : Option Bool) (l : Link E N) → Drains l (upload_if E N there filename filesize l)
    upload_if-Drains none l = (tt, omega arith)
    upload_if-Drains (some true) l = (tt, omega arith)
    upload_if-Drains (some false) l = receive_into-Drains _ (full_path filename) l

    upload_new-Drains : (l : Link E N) → Drains l (upload_new E N filename filesize l)
    upload_new-Drains l = elim (Bool-cases (bad_upload filename filesize)) [
      | inl bad ↦ rw bad (tt, omega arith)
      | inr good ↦ rw good (upload_if-Drains _ l)
    ]

    upload_dir-Drains :
        (there : Option Bool) (l : Link E N)
        → Drains l (upload_in E N filename filesize l (dir_if E N there l))
    upload_dir-Drains none l = (tt, omega arith)
    upload_dir-Drains (some true) l = upload_new-Drains l
    upload_dir-Drains (some false) l = at_made (E.files.create_directory l.world.disk images_dir)
      where
        at_made :
            (o : Option E.files.Disk)
            → Drains l (upload_in E N filename filesize l (made_dir E N o l))
        at_made none = (tt, omega arith)
        at_made (some d) = upload_new-Drains (with_disk E N d l)

    pub handle_image_upload-Drains :
        (l : Link E N) → Drains l (handle_image_upload E N filename filesize l)
    unfolding handle_image_upload
    handle_image_upload-Drains l = upload_dir-Drains (E.files.exists l.world.disk images_dir) l

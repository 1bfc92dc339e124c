-- ===== src/Server/Images/Effects.antt =====
-- Everything that an upload does to its state is one of a few steps: a relation that these steps
-- are in, and that joins up, holds between the states before and after an upload.
use raspi_cctv_tcp_server.Prelude.{
  ℕ, zero, suc, ◌-◌, min, Option, none, some, List, ◌∷◌, Text, ◌≡◌, refl, String, Bool, true, false,
  ltb, Bool-cases, inl, inr,
}
use raspi_cctv_tcp_server.Server.Env.{Env}
use raspi_cctv_tcp_server.Server.Net.{Tls, Received, nothing, bytes, Link, with_disk}
use raspi_cctv_tcp_server.Server.Response.{image_error}
use raspi_cctv_tcp_server.Server.Images.{
  chunk_size, on_removed, give_up, close_file, upload_if, dir_if, made_dir, upload_in, on_received,
  receive, receive_into, upload_new, bad_upload, full_path, handle_image_upload, images_dir,
}

module _ (E : Env) (N : Tls) (R : Link E N → Link E N → Type 0) (path : Text) where
  pub record Covers : Type 0 where
    pub same : (l : Link E N) → R l l
    pub joins : (l l' l'' : Link E N) → R l l' → R l' l'' → R l l''
    pub makes_directory :
        (l : Link E N) (d : E.files.Disk)
        → E.files.create_directory l.world.disk images_dir ≡ some d
        → R l (with_disk E N d l)
    pub creates :
        (l : Link E N) (d : E.files.Disk)
        → E.files.create l.world.disk path ≡ some d
        → R l (with_disk E N d l)
    pub removes :
        (l : Link E N) (d : E.files.Disk)
        → E.files.remove l.world.disk path ≡ some d
        → R l (with_disk E N d l)
    pub reads_nothing :
        (l : Link E N) (c : N.Conn) (n : ℕ)
        → N.read l.conn n ≡ (nothing, c)
        → R l (record l { conn = c })
    pub stores :
        (l : Link E N) (c : N.Conn) (n b : ℕ) (bs : List ℕ)
        → N.read l.conn n ≡ (bytes b bs, c)
        → R l (with_disk E N (E.files.append l.world.disk path (b ∷ bs)) (record l { conn = c }))

  module _ (covers : Covers) where
    give_up-R : (message : String) (l : Link E N) → R l (give_up E N path message l).1
    give_up-R message l = at_remove (E.files.remove l.world.disk path) refl
      where
        at_remove :
            (o : Option E.files.Disk)
            → E.files.remove l.world.disk path ≡ o
            → R l (on_removed E N (image_error 500 message) l o).1
        at_remove none e = covers.same l
        at_remove (some d) e = covers.removes l d e

    close_file-R : (l : Link E N) → R l (close_file E N path l).1
    close_file-R l = elim (Bool-cases (E.files.closes_well l.world.disk path)) [
      | inl good ↦ rw good (covers.same l)
      | inr bad ↦ rw bad (give_up-R "Failed to write file completely" l)
    ]

    receive-R :
        (fuel filesize total : ℕ) (l : Link E N) → R l (receive E N fuel path filesize total l).1
    unfolding receive
    receive-R zero filesize total l = covers.same l
    receive-R (suc fuel) filesize total l = elim (Bool-cases (ltb total filesize)) [
      | inr full ↦ rw (full, receive) (close_file-R l)
      | inl more ↦
          rw (more, receive)
            (received (N.read l.conn (min chunk_size (filesize - total))) refl
              λ n l'. receive-R fuel filesize n l')
    ]
      where
        received :
            (x : Received × N.Conn)
            → N.read l.conn (min chunk_size (filesize - total)) ≡ x
            → ((n : ℕ) (l' : Link E N) → R l' (receive E N fuel path filesize n l').1)
            → R l (on_received E N path total (receive E N fuel path filesize) l x).1
        received (nothing, c) e again =
            covers.joins l (record l { conn = c }) _ (covers.reads_nothing l c _ e)
              (give_up-R "Read error while receiving file" _)
        received (bytes b bs, c) e again =
            covers.joins l _ _ (covers.stores l c _ b bs e) (again _ _)

    receive_into-R :
        (made : Option E.files.Disk) (filesize : ℕ) (l : Link E N)
        → E.files.create l.world.disk path ≡ made
        → R l (receive_into E N made path filesize l).1
    receive_into-R none filesize l e = covers.same l
    receive_into-R (some disk) filesize l e =
        covers.joins l _ _ (covers.creates l disk e)
          (receive-R (suc filesize) filesize 0 (with_disk E N disk l))

module _ (E : Env) (N : Tls) (R : Link E N → Link E N → Type 0) (filename : Text) (filesize : ℕ)
    (covers : Covers E N R (full_path filename)) where
  upload_if-R :
      (there : Option Bool) (l : Link E N) → R l (upload_if E N there filename filesize l).1
  upload_if-R none l = covers.same l
  upload_if-R (some true) l = covers.same l
  upload_if-R (some false) l = receive_into-R E N R (full_path filename) covers _ filesize l refl

  upload_new-R : (l : Link E N) → R l (upload_new E N filename filesize l).1
  upload_new-R l = elim (Bool-cases (bad_upload filename filesize)) [
    | inl bad ↦ rw bad (covers.same l)
    | inr good ↦ rw good (upload_if-R _ l)
  ]

  upload_dir-R :
      (there : Option Bool) (l : Link E N)
      → R l (upload_in E N filename filesize l (dir_if E N there l)).1
  upload_dir-R none l = covers.same l
  upload_dir-R (some true) l = upload_new-R l
  upload_dir-R (some false) l = at_made (E.files.create_directory l.world.disk images_dir) refl
    where
      at_made :
          (o : Option E.files.Disk)
          → E.files.create_directory l.world.disk images_dir ≡ o
          → R l (upload_in E N filename filesize l (made_dir E N o l)).1
      at_made none e = covers.same l
      at_made (some d) e = covers.joins l _ _ (covers.makes_directory l d e) (upload_new-R _)

  pub handle_image_upload-R : (l : Link E N) → R l (handle_image_upload E N filename filesize l).1
  unfolding handle_image_upload
  handle_image_upload-R l = upload_dir-R (E.files.exists l.world.disk images_dir) l

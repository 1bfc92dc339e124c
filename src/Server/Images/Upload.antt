-- ===== src/Server/Images/Upload.antt =====
-- What an upload leaves on the disk and on the connection.
use raspi_cctv_tcp_server.Prelude.{
  ℕ, suc, ◌-◌, ◌^◌, ◌<◌, Option, none, some, Bool, true, false, [], String, Text, ◌≡◌, ◌⊎◌, inl,
  inr, refl, sym, ◌∙◌, subst, arith, Bool-cases,
}
use raspi_cctv_tcp_server.Exec.{Result, ok}
use raspi_cctv_tcp_server.Server.Env.{Env}
use raspi_cctv_tcp_server.Server.Response.{Response, image_error}
use raspi_cctv_tcp_server.Server.Net.{Tls, TlsContract, Link, with_disk}
use raspi_cctv_tcp_server.Server.Overlay.Contract.{FilesContract}
use raspi_cctv_tcp_server.Server.Images.{
  receive, receive_into, upload_if, dir_if, made_dir, upload_in, upload_new, full_path, bad_upload,
  handle_image_upload, images_dir,
}
use raspi_cctv_tcp_server.Server.Images.Receiving.{
  OnlyTouches, Stored, Dropped, Threw, later_Stored, step_Dropped, step_Threw, receive_lem,
}

module _ (E : Env) (N : Tls) (files : FilesContract E.files) (tls : TlsContract N) where
  -- An error reply, and no file, no byte of the connection and no row was touched.
  pub record Refused (l : Link E N) (o : Result Response × Link E N) : Type 0 where
    pub code : ℕ
    pub message : String
    pub reply : o.0 ≡ ok (image_error code message)
    pub disk : (q : Text) → E.files.read o.1.world.disk q ≡ E.files.read l.world.disk q
    pub conn : o.1.conn ≡ l.conn
    pub db : o.1.world.db ≡ l.world.db

  -- A name that was accepted, of a file that did not exist.
  pub record IsFresh (filename : Text) (filesize : ℕ) (l : Link E N) : Type 0 where
    pub accepted : bad_upload filename filesize ≡ false
    pub missing : E.files.read l.world.disk (full_path filename) ≡ none

  abbrev pub Uploads : Text → ℕ → Link E N → Result Response × Link E N → Type 0
  Uploads filename filesize l o =
      Refused l o
      ⊎ (IsFresh filename filesize l
          × (Stored E N files tls (full_path filename) [] filesize l o
              ⊎ Dropped E N files tls (full_path filename) l o))
      ⊎ Threw E N files tls (full_path filename) l o

  opened :
      (filename : Text) (filesize : ℕ) (l : Link E N) (made : Option E.files.Disk)
      → filesize < 2 ^ 64
      → IsFresh filename filesize l
      → E.files.create l.world.disk (full_path filename) ≡ made
      → Uploads filename filesize l (receive_into E N made (full_path filename) filesize l)
  opened filename filesize l none small fresh e = inl (record {
    code = 500;
    message = "Failed to open file for writing";
    reply = refl;
    disk = λ q. refl;
    conn = refl;
    db = refl;
  })
  opened filename filesize l (some d) small fresh e =
      let path = full_path filename in
      let l' = with_disk E N d l in
      let touched : OnlyTouches E N files tls path l l' = record {
        others = λ q ne. files.read-create_ne _ d path q e ne;
        db = refl;
      } in
      elim (receive_lem E N files tls (suc filesize) path [] filesize (with_disk E N d l) small
        (ground arith) (ground arith) (λ good. files.read-create _ d path e)) [
          | inl s ↦ inr (
              inl (
                fresh,
                inl (
                    later_Stored E N files tls path filesize l _ _ refl touched (
                      subst
                        (λ (n : ℕ).
                          Stored E N files tls path [] n l'
                            (receive E N (suc filesize) path filesize 0 l'))
                        minus_zero s)),
              ))
          | inr (inl g) ↦ inr (inl (fresh, inr (step_Dropped E N files tls path l _ _ touched g)))
          | inr (inr g) ↦ inr (inr (step_Threw E N files tls path l _ _ touched g))
        ]
    where
      minus_zero : filesize - 0 ≡ filesize
      minus_zero = omega arith

  untouched : (path : Text) (l : Link E N) → OnlyTouches E N files tls path l l
  untouched path l = record { others = λ q ne. refl; db = refl }

  upload_if-Uploads :
      (filename : Text) (filesize : ℕ) (l : Link E N) (there : Option Bool)
      → filesize < 2 ^ 64
      → bad_upload filename filesize ≡ false
      → E.files.exists l.world.disk (full_path filename) ≡ there
      → Uploads filename filesize l (upload_if E N there filename filesize l)
  upload_if-Uploads filename filesize l none small good e = inr (
      inr (record {
        reply = refl;
        cause = inr (inr (inl e));
        touches = untouched (full_path filename) l;
      }))
  upload_if-Uploads filename filesize l (some true) small good e = inl (record {
    code = 409;
    message = "File already exists";
    reply = refl;
    disk = λ q. refl;
    conn = refl;
    db = refl;
  })
  upload_if-Uploads filename filesize l (some false) small good e =
      opened filename filesize l _ small
        (record { accepted = good; missing = files.exists_read _ _ e }) refl

  upload_new-Uploads :
      (filename : Text) (filesize : ℕ) (l : Link E N)
      → filesize < 2 ^ 64
      → Uploads filename filesize l (upload_new E N filename filesize l)
  upload_new-Uploads filename filesize l small = elim (Bool-cases (bad_upload filename filesize)) [
    | inl bad ↦ rw bad (
        inl (record {
          code = 400;
          message = "Invalid filename or filesize";
          reply = refl;
          disk = λ q. refl;
          conn = refl;
          db = refl;
        }))
    | inr good ↦ rw good (upload_if-Uploads filename filesize l _ small good refl)
  ]

  -- The directory that the upload made is no file.
  unmade :
      {filename : Text} {filesize : ℕ} {l : Link E N} {o : Result Response × Link E N}
      (d : E.files.Disk)
      → E.files.create_directory l.world.disk images_dir ≡ some d
      → Uploads filename filesize (with_disk E N d l) o
      → Uploads filename filesize l o
  unmade {filename} {filesize} {l} {o} d made u =
      let l' = with_disk E N d l in
      let same : (q : Text) → E.files.read d q ≡ E.files.read l.world.disk q =
        λ q. files.read-create_directory l.world.disk d images_dir q made in
      let touched : OnlyTouches E N files tls (full_path filename) l l' = record {
        others = λ q ne. same q;
        db = refl;
      } in
      let fresh : IsFresh filename filesize l' → IsFresh filename filesize l =
        λ f. record { accepted = f.accepted; missing = sym (same _) ∙ f.missing } in
      elim u [
        | inl r ↦ inl (record {
          code = r.code;
          message = r.message;
          reply = r.reply;
          disk = λ q. r.disk q ∙ same q;
          conn = r.conn;
          db = r.db;
        })
        | inr (inl (f, inl s)) ↦
            inr (inl (fresh f, inl (later_Stored E N files tls _ filesize l l' o refl touched s)))
        | inr (inl (f, inr g)) ↦
            inr (inl (fresh f, inr (step_Dropped E N files tls _ l l' o touched g)))
        | inr (inr g) ↦ inr (inr (step_Threw E N files tls _ l l' o touched g))
      ]

  upload_dir-Uploads :
      (filename : Text) (filesize : ℕ) (l : Link E N) (there : Option Bool)
      → filesize < 2 ^ 64
      → E.files.exists l.world.disk images_dir ≡ there
      → Uploads filename filesize l (upload_in E N filename filesize l (dir_if E N there l))
  upload_dir-Uploads filename filesize l none small e =
      inr (inr (record { reply = refl; cause = inl e; touches = untouched (full_path filename) l }))
  upload_dir-Uploads filename filesize l (some true) small e =
      upload_new-Uploads filename filesize l small
  upload_dir-Uploads filename filesize l (some false) small e =
      at_made (E.files.create_directory l.world.disk images_dir) refl
    where
      at_made :
          (o : Option E.files.Disk)
          → E.files.create_directory l.world.disk images_dir ≡ o
          → Uploads filename filesize l (upload_in E N filename filesize l (made_dir E N o l))
      at_made none q = inr (
          inr (record {
            reply = refl;
            cause = inr (inl q);
            touches = untouched (full_path filename) l;
          }))
      at_made (some d) q =
          unmade d q (upload_new-Uploads filename filesize (with_disk E N d l) small)

  -- An upload of a size that a size_t can hold, on any connection and on files that meet their
  -- contract, whether the calls on them succeed or fail, ends in one of four ways. It is refused
  -- with an error reply: no file has another content, and no byte was read. Or the name was
  -- accepted and no such file existed: then either the reply is the success reply, the file
  -- `images/` ++ name holds exactly the next `filesize` bytes of the connection and those behind
  -- them are still unread, or the reply is error 500 and the file is gone. Or one of the calls of
  -- exists, create_directory and remove throws in the state that is left, and nothing catches the
  -- exception. No other file and no row of the database has changed; the loop does not run out of
  -- fuel.
  pub handle_image_upload-Uploads :
      (filename : Text) (filesize : ℕ) (l : Link E N)
      → filesize < 2 ^ 64
      → Uploads filename filesize l (handle_image_upload E N filename filesize l)
  unfolding handle_image_upload
  handle_image_upload-Uploads filename filesize l small =
      upload_dir-Uploads filename filesize l _ small refl

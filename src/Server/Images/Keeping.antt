-- ===== src/Server/Images/Keeping.antt =====
-- An upload touches no row, no file but its own, and writes nothing to the connection.
use raspi_cctv_tcp_server.Prelude.{
  ℕ, Text, c_str, ◌≡◌, ◌≢◌, refl, ◌∙◌, [], ◌∷◌, ◌++◌, append_assoc, ap,
}
use raspi_cctv_tcp_server.Server.Env.{Env}
use raspi_cctv_tcp_server.Server.Net.{Tls, TlsContract, Link}
use raspi_cctv_tcp_server.Server.Overlay.Contract.{FilesContract}
use raspi_cctv_tcp_server.Server.Images.{full_path, handle_image_upload, images_dir}
use raspi_cctv_tcp_server.Server.Images.Effects.{Covers, handle_image_upload-R}

module _ (E : Env) (N : Tls) (files : FilesContract E.files) (other : Text) where
  -- The file `other` and the database are as they were.
  pub record Spares (l l' : Link E N) : Type 0 where
    pub kept : E.files.read l'.world.disk other ≡ E.files.read l.world.disk other
    pub db : l'.world.db ≡ l.world.db

  spares : (path : Text) → c_str path ≢ c_str other → Covers E N Spares path
  spares path ne = record {
    same = λ l. record { kept = refl; db = refl };
    joins = λ l l' l'' s t. record { kept = t.kept ∙ s.kept; db = t.db ∙ s.db };
    makes_directory =
        λ l d e. record { kept = files.read-create_directory _ d images_dir other e; db = refl };
    creates = λ l d e. record { kept = files.read-create_ne _ d path other e ne; db = refl };
    removes = λ l d e. record { kept = files.read-remove_ne _ d path other e ne; db = refl };
    reads_nothing = λ l c n e. record { kept = refl; db = refl };
    stores = λ l c n b bs e. record { kept = files.read-append_ne _ path other _ ne; db = refl };
  }

  pub handle_image_upload-Spares :
      (filename : Text) (filesize : ℕ) (l : Link E N)
      → c_str (full_path filename) ≢ c_str other
      → Spares l (handle_image_upload E N filename filesize l).1
  handle_image_upload-Spares filename filesize l ne =
      handle_image_upload-R E N Spares filename filesize (spares (full_path filename) ne) l

module _ (E : Env) (N : Tls) (tls : TlsContract N) where
  abbrev pub Quiet : Link E N → Link E N → Type 0
  Quiet l l' = tls.sent l'.conn ≡ tls.sent l.conn

  quiet : (path : Text) → Covers E N Quiet path
  quiet path = record {
    same = λ l. refl;
    joins = λ l l' l'' s t. t ∙ s;
    makes_directory = λ l d e. refl;
    creates = λ l d e. refl;
    removes = λ l d e. refl;
    reads_nothing = λ l c n e. (tls.read-nothing l.conn c n e).1;
    stores = λ l c n b bs e. (tls.read-bytes l.conn c n b bs e).2;
  }

  pub handle_image_upload-Quiet :
      (filename : Text) (filesize : ℕ) (l : Link E N)
      → Quiet l (handle_image_upload E N filename filesize l).1
  handle_image_upload-Quiet filename filesize l =
      handle_image_upload-R E N Quiet filename filesize (quiet (full_path filename)) l

  -- Bytes may have been taken off the connection, and none put back.
  abbrev pub Behind : Link E N → Link E N → Type 0
  Behind l l' = (u : Text) × (u ++ tls.incoming l'.conn ≡ tls.incoming l.conn)

  pub Behind-joins : (l l' l'' : Link E N) → Behind l l' → Behind l' l'' → Behind l l''
  Behind-joins l l' l'' (u, e) (v, f) =
      (u ++ v, append_assoc u v _ ∙ ap (λ (t : Text). u ++ t) f ∙ e)

  behind : (path : Text) → Covers E N Behind path
  behind path = record {
    same = λ l. ([], refl);
    joins = Behind-joins;
    makes_directory = λ l d e. ([], refl);
    creates = λ l d e. ([], refl);
    removes = λ l d e. ([], refl);
    reads_nothing = λ l c n e. ([], (tls.read-nothing l.conn c n e).0);
    stores = λ l c n b bs e. (b ∷ bs, (tls.read-bytes l.conn c n b bs e).0);
  }

  pub handle_image_upload-Behind :
      (filename : Text) (filesize : ℕ) (l : Link E N)
      → Behind l (handle_image_upload E N filename filesize l).1
  handle_image_upload-Behind filename filesize l =
      handle_image_upload-R E N Behind filename filesize (behind (full_path filename)) l

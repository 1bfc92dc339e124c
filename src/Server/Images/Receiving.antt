-- ===== src/Server/Images/Receiving.antt =====
-- The loop that receives an upload.
use raspi_cctv_tcp_server.Prelude.{
  ℕ, zero, suc, Option, true, c_str, ◌+◌, ◌-◌, ◌%◌, ◌^◌, ◌≤◌, ◌<◌, min, none, some, List, [], ◌∷◌,
  ◌++◌, String, Text, ◌≡◌, ◌≢◌, ◌⊎◌, inl, inr, refl, ap, ◌∙◌, subst, arith, length, length-append,
  append_assoc, append-nil, ltb, Bool-cases,
}
use raspi_cctv_tcp_server.Exec.{Result, ok, fault, uncaught}
use raspi_cctv_tcp_server.Server.Env.{Env}
use raspi_cctv_tcp_server.Server.Response.{Response, image_error, uploaded}
use raspi_cctv_tcp_server.Server.Net.{Tls, TlsContract, Received, nothing, bytes, Link, with_disk}
use raspi_cctv_tcp_server.Server.Overlay.Contract.{FilesContract}
use raspi_cctv_tcp_server.Server.Images.{
  chunk_size, on_removed, give_up, close_file, on_received, receive, images_dir,
}

module _ (E : Env) (N : Tls) (files : FilesContract E.files) (tls : TlsContract N) where
  open tls use {incoming}

  -- No file but the one at `path` has another content, and the database is as it was.
  pub record OnlyTouches (path : Text) (l l' : Link E N) : Type 0 where
    pub others :
        (q : Text)
        → c_str path ≢ c_str q
        → E.files.read l'.world.disk q ≡ E.files.read l.world.disk q
    pub db : l'.world.db ≡ l.world.db

  -- The file holds `old` and then `left` bytes more, which were the next ones on the connection;
  -- what came behind them is still to be read.
  pub record Stored (path old : Text) (left : ℕ) (l : Link E N) (o : Result Response × Link E N)
      : Type 0 where
    pub reply : o.0 ≡ ok (uploaded path)
    pub new : Text
    pub size : length new ≡ left
    pub content : E.files.read o.1.world.disk path ≡ some (old ++ new)
    pub taken : new ++ incoming o.1.conn ≡ incoming l.conn
    pub touches : OnlyTouches path l o.1

  -- The upload was given up and the file is gone.
  pub record Dropped (path : Text) (l : Link E N) (o : Result Response × Link E N) : Type 0 where
    pub message : String
    pub reply : o.0 ≡ ok (image_error 500 message)
    pub gone : E.files.read o.1.world.disk path ≡ none
    pub touches : OnlyTouches path l o.1

  -- A call of std::filesystem that the upload makes throws an exception.
  abbrev pub Throws : Text → E.files.Disk → Type 0
  Throws path d =
      (E.files.exists d images_dir ≡ none)
      ⊎ (E.files.create_directory d images_dir ≡ none)
      ⊎ (E.files.exists d path ≡ none)
      ⊎ (E.files.remove d path ≡ none)

  -- It ends the upload, since nothing catches it.
  pub record Threw (path : Text) (l : Link E N) (o : Result Response × Link E N) : Type 0 where
    pub reply : o.0 ≡ fault uncaught
    pub cause : Throws path o.1.world.disk
    pub touches : OnlyTouches path l o.1

  abbrev pub Outcome : Text → Text → ℕ → Link E N → Result Response × Link E N → Type 0
  Outcome path old left l o = Stored path old left l o ⊎ Dropped path l o ⊎ Threw path l o

  given_up :
      (path old : Text) (left : ℕ) (l : Link E N) (c : N.Conn) (message : String)
      → Outcome path old left l (give_up E N path message (record l { conn = c }))
  given_up path old left l c message = at_remove (E.files.remove l.world.disk path) refl
    where
      at_remove :
          (o : Option E.files.Disk)
          → E.files.remove l.world.disk path ≡ o
          → Outcome path old left l
              (on_removed E N (image_error 500 message) (record l { conn = c }) o)
      at_remove none e = inr (
          inr (record {
            reply = refl;
            cause = inr (inr (inr e));
            touches = record { others = λ q ne. refl; db = refl };
          }))
      at_remove (some d) e = inr (
          inl (record {
            message = message;
            reply = refl;
            gone = files.read-remove l.world.disk d path e;
            touches = record {
              others = λ q ne. files.read-remove_ne l.world.disk d path q e ne;
              db = refl;
            };
          }))

  -- As far as the stream is good, the file holds this.
  abbrev pub Holds : Text → Text → Link E N → Type 0
  Holds path t l =
      E.files.closes_well l.world.disk path ≡ true → E.files.read l.world.disk path ≡ some t

  closed :
      (path old : Text) (l : Link E N)
      → Holds path old l
      → Outcome path old 0 l (close_file E N path l)
  closed path old l holds = elim (Bool-cases (E.files.closes_well l.world.disk path)) [
    | inl good ↦ rw good (
        inl (record {
          reply = refl;
          new = [];
          size = refl;
          content = rw append-nil (holds good);
          taken = refl;
          touches = record { others = λ q ne. refl; db = refl };
        }))
    | inr bad ↦ rw bad (given_up path old 0 l l.conn "Failed to write file completely")
  ]

  -- A round before the rest of the loop.
  step_Stored :
      (path old more : Text) (left : ℕ) (l l' : Link E N) (o : Result Response × Link E N)
      → more ++ incoming l'.conn ≡ incoming l.conn
      → OnlyTouches path l l'
      → Stored path (old ++ more) left l' o
      → Stored path old (length more + left) l o
  step_Stored path old more left l l' o next t s = record {
    reply = s.reply;
    new = more ++ s.new;
    size = length-append more s.new ∙ ap (λ (n : ℕ). length more + n) s.size;
    content = s.content ∙ ap some (append_assoc old more s.new);
    taken = append_assoc more s.new _ ∙ ap (λ (u : Text). more ++ u) s.taken ∙ next;
    touches = record {
      others = λ q ne. s.touches.others q ne ∙ t.others q ne;
      db = s.touches.db ∙ t.db;
    };
  }

  -- A change of the disk before the loop.
  pub later_Stored :
      (path : Text) (left : ℕ) (l l' : Link E N) (o : Result Response × Link E N)
      → incoming l'.conn ≡ incoming l.conn
      → OnlyTouches path l l'
      → Stored path [] left l' o
      → Stored path [] left l o
  later_Stored path left l l' o next t s =
      subst (λ (n : ℕ). Stored path [] n l o) zero_add (step_Stored path [] [] left l l' o next t s)
    where
      zero_add : 0 + left ≡ left
      zero_add = omega arith

  pub step_Dropped :
      (path : Text) (l l' : Link E N) (o : Result Response × Link E N)
      → OnlyTouches path l l'
      → Dropped path l' o
      → Dropped path l o
  step_Dropped path l l' o t d = record {
    message = d.message;
    reply = d.reply;
    gone = d.gone;
    touches = record {
      others = λ q ne. d.touches.others q ne ∙ t.others q ne;
      db = d.touches.db ∙ t.db;
    };
  }

  pub step_Threw :
      (path : Text) (l l' : Link E N) (o : Result Response × Link E N)
      → OnlyTouches path l l'
      → Threw path l' o
      → Threw path l o
  step_Threw path l l' o t d = record {
    reply = d.reply;
    cause = d.cause;
    touches = record {
      others = λ q ne. d.touches.others q ne ∙ t.others q ne;
      db = d.touches.db ∙ t.db;
    };
  }

  -- What a round of the loop and the rounds behind it come to.
  round :
      (path old : Text) (filesize b : ℕ) (bs : List ℕ) (c : N.Conn) (l : Link E N)
      (loop : ℕ → Link E N → Result Response × Link E N)
      → filesize < 2 ^ 64
      → length old + length (b ∷ bs) ≤ filesize
      → b ∷ bs ++ incoming c ≡ incoming l.conn
      → Holds path old l
      → ((m : Text) (l' : Link E N)
          → length m ≤ filesize
          → filesize - length m < filesize - length old
          → Holds path m l'
          → Outcome path m (filesize - length m) l' (loop (length m) l'))
      → Outcome path old
          (filesize - length old)
          l
          (on_received E N path (length old) loop l (bytes b bs, c))
  round path old filesize b bs c l loop small few next holds again =
      let more = b ∷ bs in
      let l' = with_disk E N (E.files.append l.world.disk path more) (record l { conn = c }) in
      let total : length (old ++ more) ≡ length old + length more = length-append old more in
      let same : (length old + length more) % 2 ^ 64 ≡ length (old ++ more) = omega arith in
      let left : filesize - length old ≡ length more + (filesize - length (old ++ more)) =
        omega arith in
      let touched : OnlyTouches path l l' = record {
        others = λ q ne. files.read-append_ne l.world.disk path q more ne;
        db = refl;
      } in
      rw same
        (elim (again (old ++ more) l' (omega arith) (omega arith) (λ good.
          files.read-append_good l.world.disk path old more good
            (holds (files.closes_well-append l.world.disk path more good)))) [
              | inl s ↦ inl (rw left (step_Stored path old more _ l l' _ next touched s))
              | inr (inl d) ↦ inr (inl (step_Dropped path l l' _ touched d))
              | inr (inr d) ↦ inr (inr (step_Threw path l l' _ touched d))
            ])

  -- With more fuel than bytes left, the loop stores all of them or gives up; it does not run out.
  pub receive_lem :
      (fuel : ℕ) (path old : Text) (filesize : ℕ) (l : Link E N)
      → filesize < 2 ^ 64
      → length old ≤ filesize
      → filesize - length old < fuel
      → Holds path old l
      → Outcome path old (filesize - length old) l (receive E N fuel path filesize (length old) l)
  unfolding receive
  receive_lem zero path old filesize l small fits enough holds = elim enough [ ]
  receive_lem (suc fuel) path old filesize l small fits enough holds =
      elim (Bool-cases (ltb (length old) filesize)) [
        | inl more ↦
            rw (more, receive)
              (at_read (N.read l.conn (min chunk_size (filesize - length old))) refl
                (λ m l' mfits less r.
                  receive_lem fuel path m filesize l' small mfits (ground arith) r))
        | inr full ↦
            let z : filesize - length old ≡ 0 = ground arith in
            rw (full, receive, z) (closed path old l holds)
      ]
    where
      at_read :
          (x : Received × N.Conn)
          → N.read l.conn (min chunk_size (filesize - length old)) ≡ x
          → ((m : Text) (l' : Link E N)
              → length m ≤ filesize
              → filesize - length m < filesize - length old
              → Holds path m l'
              → Outcome path m
                  (filesize - length m)
                  l'
                  (receive E N fuel path filesize (length m) l'))
          → Outcome path old
              (filesize - length old)
              l
              (on_received E N path (length old) (receive E N fuel path filesize) l x)
      at_read (nothing, c) e again =
          given_up path old (filesize - length old) l c "Read error while receiving file"
      at_read (bytes b bs, c) e again =
          let r = tls.read-bytes l.conn c _ b bs e in
          let few : length (b ∷ bs) ≤ min chunk_size (filesize - length old) = r.1 in
          round path old filesize b bs c l (receive E N fuel path filesize) small (ground arith) r.0
            holds again

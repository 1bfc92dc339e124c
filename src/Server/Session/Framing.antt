-- ===== src/Server/Session/Framing.antt =====
-- Where a session goes on after an upload.
use raspi_cctv_tcp_server.Prelude.{
  ℕ, suc, Bool, ◌<◌, ◌^◌, ◌+◌, true, false, none, some, [], ◌∷◌, ◌++◌, String, Text, codes, ◌≡◌,
  ◌⊎◌, inl, inr, refl, sym, ap, ◌∙◌, arith, All, All-append, ◌==◌, length, length-append,
  append_assoc, append_injective,
}
use raspi_cctv_tcp_server.Exec.{Result, ok, fault, uncaught}
use raspi_cctv_tcp_server.Stream.{is_digit, decimal}
use raspi_cctv_tcp_server.Stream.Words.{IsWord, NotChar}
use raspi_cctv_tcp_server.Stream.Numbers.{IsDigits}
use raspi_cctv_tcp_server.Server.Env.{Env}
use raspi_cctv_tcp_server.Server.Response.{Response, image_error, uploaded, render}
use raspi_cctv_tcp_server.Server.Net.{Tls, TlsContract, Link, send}
use raspi_cctv_tcp_server.Server.Overlay.Contract.{FilesContract}
use raspi_cctv_tcp_server.Server.Commands.Sessions.{no_line_feed}
use raspi_cctv_tcp_server.Server.Images.{full_path, handle_image_upload}
use raspi_cctv_tcp_server.Server.Images.Receiving.{Throws, Threw}
use raspi_cctv_tcp_server.Server.Images.Upload.{handle_image_upload-Uploads}
use raspi_cctv_tcp_server.Server.Images.Keeping.{handle_image_upload-Quiet}
use raspi_cctv_tcp_server.Server.Session.{
  Input, command, Next, with_line_feed, answer, serve_command, on_served, on_input, read_command,
  handle_client,
}
use raspi_cctv_tcp_server.Server.Session.Pictures.{upload_line, serve_upload_line}
use raspi_cctv_tcp_server.Server.Session.Reading.{Healthy, Took, read_line}

digits_clean : (ds : Text) → All (λ c. is_digit c ≡ true) ds → All (NotChar 10) ds
digits_clean [] h = tt
digits_clean (c ∷ ds) (p, h) = (ground arith, digits_clean ds h)

-- The line without its line feed.
abbrev upload_text : Text → Text → Text
upload_text filename digits = codes "UPLOAD " ++ (filename ++ 32 ∷ digits)

upload_text_clean :
    (filename digits : Text)
    → IsWord filename
    → IsDigits digits
    → All (NotChar 10) (upload_text filename digits)
upload_text_clean filename digits word number =
    All-append (NotChar 10) (codes "UPLOAD ") (filename ++ 32 ∷ digits)
      (refl, (refl, (refl, (refl, (refl, (refl, (refl, tt)))))))
      (All-append (NotChar 10) filename (32 ∷ digits) (no_line_feed filename word.1)
        (refl, digits_clean digits number.1))

line_of_text :
    (filename digits : Text) → upload_text filename digits ++ 10 ∷ [] ≡ upload_line filename digits
line_of_text filename digits =
    ap (λ (t : Text). codes "UPLOAD " ++ t) (append_assoc filename (32 ∷ digits) (10 ∷ []))

text_behind :
    (filename digits t : Text)
    → upload_line filename digits ++ t ≡ upload_text filename digits ++ 10 ∷ t
text_behind filename digits t =
    ap (λ (u : Text). u ++ t) (sym (line_of_text filename digits))
    ∙ append_assoc (upload_text filename digits) (10 ∷ []) t

module _ (E : Env) (N : Tls) (files : FilesContract E.files) (tls : TlsContract N)
    (healthy : Healthy N tls) where
  open tls use {incoming, sent}

  -- The reply has been sent, the session goes on as from `next`, and `rest` is still to be read.
  pub record GoesOn (l next : Link E N) (reply : Response) (fuel : ℕ) (s : Result Bool × Link E N)
      : Type 0 where
    pub replied : sent next.conn ≡ sent l.conn ++ with_line_feed (render reply)
    pub session : s ≡ handle_client E N fuel next

  pub record Framed (path image rest : Text) (l : Link E N) (fuel : ℕ) (s : Result Bool × Link E N)
      : Type 0 where
    pub next : Link E N
    pub goes_on : GoesOn l next (uploaded path) fuel s
    pub stored : E.files.read next.world.disk path ≡ some image
    pub left : incoming next.conn ≡ rest

  pub record Unread (image rest : Text) (l : Link E N) (fuel : ℕ) (s : Result Bool × Link E N)
      : Type 0 where
    pub code : ℕ
    pub message : String
    pub next : Link E N
    pub goes_on : GoesOn l next (image_error code message) fuel s
    pub disk : (q : Text) → E.files.read next.world.disk q ≡ E.files.read l.world.disk q
    pub left : incoming next.conn ≡ image ++ rest

  pub record Lost (path : Text) (l : Link E N) (fuel : ℕ) (s : Result Bool × Link E N)
      : Type 0 where
    pub message : String
    pub next : Link E N
    pub goes_on : GoesOn l next (image_error 500 message) fuel s
    pub gone : E.files.read next.world.disk path ≡ none

  -- The session is over: one of the upload's calls of std::filesystem threw, on the disk that is
  -- left, and nothing was answered.
  pub record Thrown (path : Text) (l : Link E N) (s : Result Bool × Link E N) : Type 0 where
    pub result : s.0 ≡ fault uncaught
    pub quiet : sent s.1.conn ≡ sent l.conn
    pub cause : Throws E N files tls path s.1.world.disk

  abbrev pub AfterUpload : Text → Text → Text → Link E N → ℕ → Result Bool × Link E N → Type 0
  AfterUpload path image rest l fuel s =
      Framed path image rest l fuel s
      ⊎ Unread image rest l fuel s
      ⊎ Lost path l fuel s
      ⊎ Thrown path l s

  module _ (filename digits image rest : Text) (l : Link E N) (fuel : ℕ) (word : IsWord filename)
      (number : IsDigits digits) (positive : (decimal 0 digits == 0) ≡ false)
      (small : decimal 0 digits < 2 ^ 64) (size : length image ≡ decimal 0 digits)
      (next : incoming l.conn ≡ upload_line filename digits ++ (image ++ rest))
      (enough : length (incoming l.conn) < suc fuel) where
    abbrev input : Input × N.Conn
    input = read_command E N (suc fuel) [] l.conn

    abbrev at_body : Link E N
    at_body = record l { conn = input.1 }

    abbrev upload : Result Response × Link E N
    upload = handle_image_upload E N filename (decimal 0 digits) at_body

    line_read :
        Took E N tls healthy
          (image ++ rest)
          l.conn
          (command (upload_text filename digits ++ 10 ∷ []))
          input
    line_read =
        let behind = next ∙ text_behind filename digits (image ++ rest) in
        let text = upload_text filename digits in
        let long : length (text ++ 10 ∷ (image ++ rest))
            ≡ length text + suc (length (image ++ rest)) =
          length-append text (10 ∷ (image ++ rest)) in
        read_line E N tls healthy (suc fuel) text (image ++ rest) [] l.conn
          (omega (arith, ap length behind, long)) (upload_text_clean filename digits word number)
          behind

    served :
        handle_client E N (suc fuel) l ≡ on_served E N (handle_client E N fuel) (answer E N upload)
    served =
        unfold handle_client in
        ap (λ (i : Input). on_input E N (handle_client E N fuel) (i, input.1) l) line_read.reads
        ∙ ap (λ (t : Text). on_served E N (handle_client E N fuel) (serve_command E N t at_body))
            (line_of_text filename digits)
        ∙ ap (λ (o : Result Next × Link E N). on_served E N (handle_client E N fuel) o)
            (serve_upload_line E N filename digits at_body word number positive small)

    abbrev after : Response → Link E N
    after r = send E N (with_line_feed (render r)) upload.1

    goes :
        (r : Response)
        → upload.0 ≡ ok r
        → GoesOn l (after r) r fuel (handle_client E N (suc fuel) l)
    goes r e = record {
      replied =
          tls.sent-write upload.1.conn (with_line_feed (render r)) (healthy.writes _ _)
          ∙ ap (λ (t : Text). t ++ with_line_feed (render r))
              (handle_image_upload-Quiet E N tls filename (decimal 0 digits) at_body
                ∙ line_read.quiet);
      session =
          served
          ∙ ap
              (λ (x : Result Response).
                on_served E N (handle_client E N fuel) (answer E N (x, upload.1)))
              e;
    }

    thrown :
        Threw E N files tls (full_path filename) at_body upload
        → Thrown (full_path filename) l (handle_client E N (suc fuel) l)
    thrown t =
        let over : handle_client E N (suc fuel) l ≡ (fault uncaught, upload.1) =
          served
          ∙ ap
              (λ (x : Result Response).
                on_served E N (handle_client E N fuel) (answer E N (x, upload.1)))
              t.reply in
        rw over (record {
          result = refl;
          quiet =
              handle_image_upload-Quiet E N tls filename (decimal 0 digits) at_body
              ∙ line_read.quiet;
          cause = t.cause;
        })

    after_left : (r : Response) → incoming (after r).conn ≡ incoming upload.1.conn
    after_left r = tls.incoming-write upload.1.conn (with_line_feed (render r))

    -- On a connection that meets its contract and on which nothing fails, and on files that meet
    -- theirs: the client sends the line UPLOAD with a word and the digits of a positive number that
    -- a size_t can hold, then that many bytes, the image, and then anything. Then one of four things
    -- happens. In the first three the session replies and goes on as a session does, with the fuel
    -- left: the reply is success, the file `images/` ++ word holds the image, and the next byte read
    -- is the one behind the image; or it is an error, no file has another content, and the next byte
    -- read is the first of the image, so that the image will be read as lines; or it is error 500,
    -- and the file is gone. In the fourth, one of the calls of exists, create_directory and remove
    -- throws: nothing was sent, and the exception ends the session.
    pub handle_client-upload :
        AfterUpload (full_path filename) image rest l fuel (handle_client E N (suc fuel) l)
    handle_client-upload =
        elim (handle_image_upload-Uploads E N files tls filename (decimal 0 digits) at_body small) [
          | inl r ↦ inr (
              inl (record {
                code = r.code;
                message = r.message;
                next = after (image_error r.code r.message);
                goes_on = goes (image_error r.code r.message) r.reply;
                disk = r.disk;
                left =
                    after_left (image_error r.code r.message) ∙ ap incoming r.conn ∙ line_read.left;
              }))
          | inr (inl (f, inl t)) ↦
              let (same, behind) =
                append_injective t.new (incoming upload.1.conn) image rest
                  (t.taken ∙ line_read.left) (t.size ∙ sym size) in
              inl (record {
                next = after (uploaded (full_path filename));
                goes_on = goes (uploaded (full_path filename)) t.reply;
                stored = t.content ∙ ap some same;
                left = after_left (uploaded (full_path filename)) ∙ behind;
              })
          | inr (inr t) ↦ inr (inr (inr (thrown t)))
          | inr (inl (f, inr d)) ↦ inr (
              inr (
                inl (record {
                  message = d.message;
                  next = after (image_error 500 d.message);
                  goes_on = goes (image_error 500 d.message) d.reply;
                  gone = d.gone;
                })))
        ]

-- ===== src/Server/Session/RoundTrip.antt =====
-- What is uploaded is what is downloaded.
use raspi_cctv_tcp_server.Prelude.{
  ℕ, ◌<◌, ◌^◌, true, false, some, [], ◌++◌, Text, codes, ◌≡◌, inl, inr, refl, sym, ap, subst, ◌∙◌,
  All, All-append, ◌==◌, length, take, take-append,
}
use raspi_cctv_tcp_server.Stream.{decimal}
use raspi_cctv_tcp_server.Stream.Words.{IsWord, NoSpace}
use raspi_cctv_tcp_server.Stream.Numbers.{IsDigits}
use raspi_cctv_tcp_server.Exec.{Result, ok, fault}
use raspi_cctv_tcp_server.Endian.{bytes_be}
use raspi_cctv_tcp_server.Endian.NetworkOrder.{NetContract}
use raspi_cctv_tcp_server.Server.Env.{Env}
use raspi_cctv_tcp_server.Server.Response.{Response, uploaded}
use raspi_cctv_tcp_server.Server.Net.{Tls, TlsContract, Link}
use raspi_cctv_tcp_server.Server.Overlay.Contract.{FilesContract}
use raspi_cctv_tcp_server.Server.Images.{full_path, handle_image_upload}
use raspi_cctv_tcp_server.Server.Images.Receiving.{Stored}
use raspi_cctv_tcp_server.Server.Images.Upload.{Uploads, handle_image_upload-Uploads}
use raspi_cctv_tcp_server.Server.Images.Sending.{handle_get_image-Sent}
use raspi_cctv_tcp_server.Server.Session.{Next, returned, image_sent, answer, serve_command}
use raspi_cctv_tcp_server.Server.Session.Pictures.{
  upload_line, image_line, serve_upload_line, serve_image_line,
}

images_slash : All NoSpace (codes "images/")
images_slash = (refl, (refl, (refl, (refl, (refl, (refl, (refl, tt)))))))

full_path-IsWord : (filename : Text) → IsWord filename → IsWord (full_path filename)
full_path-IsWord filename (e, h) =
    (refl, All-append NoSpace (codes "images/") filename images_slash h)

module _ (E : Env) (N : Tls) (files : FilesContract E.files) (tls : TlsContract N)
    (good : (c : N.Conn) (t : Text) → (N.write c t).0 ≡ true) (ntohl : ℕ → ℕ)
    (net : NetContract N.htonl ntohl) where
  uploaded_Stored :
      (filename : Text) (n : ℕ) (l : Link E N) (o : Result Response × Link E N)
      → Uploads E N files tls filename n l o
      → o.0 ≡ ok (uploaded (full_path filename))
      → Stored E N files tls (full_path filename) [] n l o
  uploaded_Stored filename n l o (inl r) h = let e = r.reply in cc
  uploaded_Stored filename n l o (inr (inl (f, inl s))) h = s
  uploaded_Stored filename n l o (inr (inl (f, inr d))) h = let e = d.reply in cc
  uploaded_Stored filename n l o (inr (inr t)) h = let e = t.reply in cc

  answer-disk : (o : Result Response × Link E N) → (answer E N o).1.world ≡ o.1.world
  answer-disk (ok r, l) = refl
  answer-disk (fault f, l) = refl

  -- After an upload that was answered with success, the file holds the bytes that were sent.
  upload_content :
      (filename digits : Text) (l : Link E N)
      → IsWord filename
      → IsDigits digits
      → (decimal 0 digits == 0) ≡ false
      → decimal 0 digits < 2 ^ 64
      → (handle_image_upload E N filename (decimal 0 digits) l).0
        ≡ ok (uploaded (full_path filename))
      → (length (take (decimal 0 digits) (tls.incoming l.conn)) ≡ decimal 0 digits)
        × (E.files.read
              (serve_command E N (upload_line filename digits) l).1.world.disk
              (full_path filename)
            ≡ some (take (decimal 0 digits) (tls.incoming l.conn)))
  upload_content filename digits l word number positive small reply =
      let n = decimal 0 digits in
      let o = handle_image_upload E N filename n l in
      let s =
        uploaded_Stored filename n l o
          (handle_image_upload-Uploads E N files tls filename n l small) reply in
      let new : take n (tls.incoming l.conn) ≡ s.new =
        subst (λ (m : ℕ). take m (tls.incoming l.conn) ≡ s.new) s.size
          (subst (λ (t : Text). take (length s.new) t ≡ s.new) s.taken (take-append s.new _)) in
      (
        ap length new ∙ s.size,
        ap (λ (r : _). E.files.read r.1.world.disk (full_path filename))
              (serve_upload_line E N filename digits l word number positive small)
            ∙ ap (λ w. E.files.read w.disk (full_path filename)) (answer-disk o)
            ∙ s.content
            ∙ ap some (sym new),
      )

  -- On a connection and files that meet their contracts, and when every write succeeds: let the
  -- line UPLOAD name the file by one word and its size by decimal digits, for a positive number
  -- that a size_t can hold, and let the upload be answered with success. Then at any later time
  -- and on any connection, if the file has not been touched since, the line GET_IMAGE with the
  -- path of the success reply is answered with the size as eight bytes in network order and,
  -- behind it, exactly the bytes that followed the UPLOAD line; these are as many as the size.
  -- Nothing else is sent, and the session returns true.
  pub get_image-upload :
      (filename digits : Text) (l later : Link E N)
      → IsWord filename
      → IsDigits digits
      → (decimal 0 digits == 0) ≡ false
      → decimal 0 digits < 2 ^ 64
      → (handle_image_upload E N filename (decimal 0 digits) l).0
        ≡ ok (uploaded (full_path filename))
      → E.files.read later.world.disk (full_path filename)
        ≡ E.files.read
            (serve_command E N (upload_line filename digits) l).1.world.disk
            (full_path filename)
      → let image = take (decimal 0 digits) (tls.incoming l.conn) in
        let o = serve_command E N (image_line (full_path filename)) later in
        (length image ≡ decimal 0 digits)
        × (o.0 ≡ ok (returned true))
        × (tls.sent o.1.conn ≡ tls.sent later.conn ++ (bytes_be 8 (decimal 0 digits) ++ image))
  get_image-upload filename digits l later word number positive small reply kept =
      let path = full_path filename in
      let image = take (decimal 0 digits) (tls.incoming l.conn) in
      let (size, stored) = upload_content filename digits l word number positive small reply in
      let fits : length image < 2 ^ 64 = rw size small in
      let s = handle_get_image-Sent E N tls good ntohl net path image later (kept ∙ stored) fits in
      let served : serve_command E N (image_line path) later
          ≡ (ok (returned true), record later { conn = s.last }) =
        serve_image_line E N path later (full_path-IsWord filename word)
        ∙ ap (λ c. image_sent E N c later) s.ends in
      (
        size,
        ap (λ (o : Result Next × Link E N). o.0) served,
        ap (λ (o : Result Next × Link E N). tls.sent o.1.conn) served
            ∙ s.text
            ∙ ap (λ (n : ℕ). tls.sent later.conn ++ (bytes_be 8 n ++ image)) size,
      )

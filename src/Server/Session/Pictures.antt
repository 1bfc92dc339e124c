-- ===== src/Server/Session/Pictures.antt =====
-- Images as a client meets them: the lines UPLOAD and GET_IMAGE.
use raspi_cctv_tcp_server.Prelude.{
  ℕ, ◌<◌, ◌%◌, ◌^◌, ◌||◌, true, false, if◌then◌else◌, [], ◌∷◌, ◌++◌, ap, ◌∙◌, Text, codes, is_empty,
  ◌≡◌, refl, ◌==◌,
}
use raspi_cctv_tcp_server.Stream.{Stream, is_space, open_stream, read_word, read_size, decimal}
use raspi_cctv_tcp_server.Stream.Words.{IsWord, at, read_word_before, read_word_blank}
use raspi_cctv_tcp_server.Stream.Numbers.{IsDigits, read_size_digits}
use raspi_cctv_tcp_server.Exec.{Result, ok}
use raspi_cctv_tcp_server.Server.Env.{Env}
use raspi_cctv_tcp_server.Server.Response.{error, render}
use raspi_cctv_tcp_server.Server.Net.{Tls, Link, send}
use raspi_cctv_tcp_server.Server.Images.{handle_image_upload, handle_get_image}
use raspi_cctv_tcp_server.Server.Session.{
  Next, again, returned, refused_upload, answer, image_sent, serve_upload, serve_image,
  serve_command,
}

abbrev pub upload_line : Text → Text → Text
upload_line filename digits = codes "UPLOAD " ++ (filename ++ 32 ∷ (digits ++ 10 ∷ []))

abbrev pub image_line : Text → Text
image_line image_path = codes "GET_IMAGE " ++ (image_path ++ 10 ∷ [])

-- The tag in front, when a word with a blank behind it follows a blank.
second_word :
    (tag w r : Text) (b : ℕ)
    → is_space b ≡ true
    → IsWord tag
    → IsWord w
    → read_word [] (read_word [] (at (tag ++ 32 ∷ (w ++ b ∷ r)))).1 ≡ (w, at (b ∷ r))
second_word tag w r b blank ht hw =
    ap (λ (o : Text × Stream). read_word [] o.1) (read_word_before [] tag (w ++ b ∷ r) 32 refl ht)
    ∙ read_word_blank [] (w ++ b ∷ r)
    ∙ read_word_before [] w r b blank hw

upload-IsWord : IsWord (codes "UPLOAD")
upload-IsWord = (refl, (refl, (refl, (refl, (refl, (refl, (refl, tt)))))))

get_image-IsWord : IsWord (codes "GET_IMAGE")
get_image-IsWord =
    (refl, (refl, (refl, (refl, (refl, (refl, (refl, (refl, (refl, (refl, tt))))))))))

module _ (E : Env) (N : Tls) where
  pub serve_upload_line :
      (filename digits : Text) (l : Link E N)
      → IsWord filename
      → IsDigits digits
      → (decimal 0 digits == 0) ≡ false
      → decimal 0 digits < 2 ^ 64
      → serve_command E N (upload_line filename digits) l
        ≡ answer E N (handle_image_upload E N filename (decimal 0 digits) l)
  unfolding serve_command serve_upload open_stream
  serve_upload_line filename digits l word number positive small =
      let name =
        second_word (codes "UPLOAD") filename (digits ++ 10 ∷ []) 32 refl upload-IsWord word in
      let size = read_size_digits (l.world.stale_size % 2 ^ 64) digits [] number small in
      let served : Text → ℕ → Result Next × Link E N = λ f n.
        if is_empty f || n == 0
        then (ok again, send E N refused_upload l)
        else answer E N (handle_image_upload E N f n l) in
      ap (λ (o : Text × Stream). served o.0 (read_size (l.world.stale_size % 2 ^ 64) o.1).0) name
      ∙ ap (served filename) size
      ∙ rw (word.0, positive) refl

  pub serve_image_line :
      (image_path : Text) (l : Link E N)
      → IsWord image_path
      → serve_command E N (image_line image_path) l
        ≡ image_sent E N (handle_get_image E N image_path l) l
  unfolding serve_command serve_image open_stream
  serve_image_line image_path l word =
      let path = second_word (codes "GET_IMAGE") image_path [] 10 refl get_image-IsWord word in
      let served : Text → Result Next × Link E N = λ p.
        if is_empty p
        then (ok (returned false), send E N (render (error 400 "Missing image path")) l)
        else image_sent E N (handle_get_image E N p l) l in
      ap (λ (o : Text × Stream). served o.0) path ∙ rw word.0 refl

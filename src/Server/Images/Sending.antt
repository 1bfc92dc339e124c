-- ===== src/Server/Images/Sending.antt =====
-- What GET_IMAGE writes to the connection.
use raspi_cctv_tcp_server.Prelude.{
  ℕ, zero, suc, ◌%◌, ◌^◌, ◌≤◌, ◌<◌, Option, none, some, Bool, true, false, [], ◌∷◌, ◌++◌, Text, ◌≡◌,
  refl, sym, ap, ◌∙◌, arith, length, length-drop, take, drop, take-drop, take_all, append_assoc,
  append-nil, ltb, Bool-cases, inl, inr,
}
use raspi_cctv_tcp_server.Endian.{bytes_be}
use raspi_cctv_tcp_server.Endian.NetworkOrder.{NetContract, bytes_le-htonll}
use raspi_cctv_tcp_server.Server.Env.{Env}
use raspi_cctv_tcp_server.Server.Response.{error, render}
use raspi_cctv_tcp_server.Server.Net.{Tls, TlsContract, Link}
use raspi_cctv_tcp_server.Server.Overlay.Contract.{FilesContract}
use raspi_cctv_tcp_server.Server.Images.{
  chunk_size, send_chunks, size_header, send_content, send_file, handle_get_image,
}

ltb→le : (a b : ℕ) → ltb a b ≡ true → a ≤ b
ltb→le a b h = ground arith

module _ (E : Env) (N : Tls) where
  -- When the reads meet the end, so does the loop, whatever the writes return.
  send_chunks_ends :
      (fuel : ℕ) (rest : Text) (c : N.Conn)
      → length rest < fuel
      → (c' : N.Conn) × (send_chunks E N true fuel rest c ≡ some c')
  unfolding send_chunks
  send_chunks_ends zero rest c enough = elim enough [ ]
  send_chunks_ends (suc fuel) [] c enough = (c, refl)
  send_chunks_ends (suc fuel) (b ∷ bs) c enough =
      let o = N.write c (take chunk_size (b ∷ bs)) in
      elim (Bool-cases (ltb (length (b ∷ bs)) chunk_size)) [
        | inl last ↦ (o.1, rw (last, send_chunks) refl)
        | inr more ↦ elim (Bool-cases o.0) [
          | inr failed ↦ (o.1, rw (more, failed, send_chunks) refl)
          | inl written ↦
              let ih =
                send_chunks_ends fuel (drop chunk_size (b ∷ bs)) o.1
                  (omega (arith, length-drop chunk_size (b ∷ bs))) in
              (ih.0, rw (more, written, send_chunks) ih.1)
        ]
      ]

  file_sent :
      (content : Option Text) (bad : Option (ℕ × Text)) (c : N.Conn)
      → bad ≡ none
      → (c' : N.Conn) × (send_file E N content bad c ≡ some c')
  file_sent none none c e = ((N.write c (render (error 404 "Image not found"))).1, refl)
  file_sent none (some x) c e = absurd (cc)
  file_sent (some content) bad c e = content_sent (N.write c (size_header E N (length content)))
    where
      content_sent :
          (o : Bool × N.Conn) → (c' : N.Conn) × (send_content E N true content c o ≡ some c')
      content_sent (false, c') = (c', refl)
      content_sent (true, c') = send_chunks_ends (suc (length content)) content c' (omega arith)

  -- When the path names nothing that can be opened and not read, the sending loop has enough fuel,
  -- whether the writes succeed or fail.
  pub handle_get_image-Ends :
      (path : Text) (l : Link E N)
      → E.files.unreadable l.world.disk path ≡ none
      → (c : N.Conn) × (handle_get_image E N path l ≡ some c)
  unfolding handle_get_image
  handle_get_image-Ends path l e = file_sent (E.files.read l.world.disk path) _ l.conn e

  -- When a read fails and every write succeeds, no fuel is enough.
  send_chunks_hangs :
      (fuel : ℕ) (rest : Text) (c : N.Conn)
      → ((c : N.Conn) (t : Text) → (N.write c t).0 ≡ true)
      → send_chunks E N false fuel rest c ≡ none
  unfolding send_chunks
  send_chunks_hangs zero rest c good = refl
  send_chunks_hangs (suc fuel) rest c good = elim (Bool-cases (ltb (length rest) chunk_size)) [
    | inl last ↦ rw (last, send_chunks) (send_chunks_hangs fuel rest c good)
    | inr more ↦
        rw (more, good c (take chunk_size rest), send_chunks)
          (send_chunks_hangs fuel (drop chunk_size rest) _ good)
  ]

  -- When the path can be opened and not read to its end, as a directory can, and every write
  -- succeeds, GET_IMAGE never ends: whatever fuel the sending loop is given, it runs out, since a
  -- read that fails leaves eof() false.
  pub handle_get_image-Hangs :
      FilesContract E.files
      → ((c : N.Conn) (t : Text) → (N.write c t).0 ≡ true)
      → (path : Text) (l : Link E N) (size : ℕ) (content : Text)
      → E.files.unreadable l.world.disk path ≡ some (size, content)
      → (handle_get_image E N path l ≡ none)
        × ((fuel : ℕ) (c : N.Conn) → send_chunks E N false fuel content c ≡ none)
  unfolding handle_get_image
  handle_get_image-Hangs files good path l size content e =
      let absent = files.unreadable_read l.world.disk path size content e in
      let header = good l.conn (size_header E N (size % 2 ^ 64)) in
      (
        rw (absent, e, handle_get_image, header)
            (send_chunks_hangs (suc (length content)) content _ good),
        λ fuel c. send_chunks_hangs fuel content c good,
      )

  -- All of `t`, behind what was sent before.
  pub record Sent (t : Text) (c : N.Conn) (tls : TlsContract N) (o : Option N.Conn) : Type 0 where
    pub last : N.Conn
    pub ends : o ≡ some last
    pub text : tls.sent last ≡ tls.sent c ++ t

  module _ (tls : TlsContract N) (good : (c : N.Conn) (t : Text) → (N.write c t).0 ≡ true) where
    send_chunks_lem :
        (fuel : ℕ) (rest : Text) (c : N.Conn)
        → length rest < fuel
        → Sent rest c tls (send_chunks E N true fuel rest c)
    unfolding send_chunks
    send_chunks_lem zero rest c enough = elim enough [ ]
    send_chunks_lem (suc fuel) [] c enough = record {
      last = c;
      ends = refl;
      text = sym (append-nil (tls.sent c));
    }
    send_chunks_lem (suc fuel) (b ∷ bs) c enough =
        let o = N.write c (take chunk_size (b ∷ bs)) in
        let now = tls.sent-write c (take chunk_size (b ∷ bs)) (good _ _) in
        elim (Bool-cases (ltb (length (b ∷ bs)) chunk_size)) [
          | inl last ↦ record {
            last = o.1;
            ends = rw (last, send_chunks) refl;
            text =
                now
                ∙ ap (λ (t : Text). tls.sent c ++ t)
                    (take_all chunk_size (b ∷ bs) (ltb→le _ _ last));
          }
          | inr more ↦
              let ih =
                send_chunks_lem fuel (drop chunk_size (b ∷ bs)) o.1
                  (omega (arith, length-drop chunk_size (b ∷ bs))) in
              record {
                last = ih.last;
                ends = rw (more, good c (take chunk_size (b ∷ bs)), send_chunks) ih.ends;
                text =
                    ih.text
                    ∙ ap (λ (t : Text). t ++ drop chunk_size (b ∷ bs)) now
                    ∙ append_assoc (tls.sent c) _ _
                    ∙ ap (λ (t : Text). tls.sent c ++ t) (take-drop chunk_size (b ∷ bs));
              }
        ]

    pub handle_get_image-Sent :
        (ntohl : ℕ → ℕ) (net : NetContract N.htonl ntohl) (path content : Text) (l : Link E N)
        → E.files.read l.world.disk path ≡ some content
        → length content < 2 ^ 64
        → Sent (bytes_be 8 (length content) ++ content) l.conn tls (handle_get_image E N path l)
    unfolding handle_get_image
    handle_get_image-Sent ntohl net path content l there small =
        let header = bytes_le-htonll N.htonl ntohl net (length content) small in
        let c' = (N.write l.conn (size_header E N (length content))).1 in
        let s = send_chunks_lem (suc (length content)) content c' (omega arith) in
        record {
          last = s.last;
          ends =
              rw (there, handle_get_image, good l.conn (size_header E N (length content))) s.ends;
          text =
              s.text
              ∙ ap (λ (t : Text). t ++ content)
                  (tls.sent-write _ _ (good _ _) ∙ ap (λ (t : Text). tls.sent l.conn ++ t) header)
              ∙ append_assoc (tls.sent l.conn) _ _;
        }

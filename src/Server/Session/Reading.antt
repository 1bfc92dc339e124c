-- ===== src/Server/Session/Reading.antt =====
-- What reading a line gives on a connection that delivers every byte.
use raspi_cctv_tcp_server.Prelude.{
  ℕ, zero, suc, ◌<◌, true, List, [], ◌∷◌, ◌++◌, Text, ◌≡◌, refl, ap, ◌∙◌, arith, length,
  append_assoc, All,
}
use raspi_cctv_tcp_server.Stream.Words.{NotChar}
use raspi_cctv_tcp_server.Server.Env.{Env}
use raspi_cctv_tcp_server.Server.Net.{Tls, TlsContract, Received, nothing, bytes}
use raspi_cctv_tcp_server.Server.Session.{Input, ended, command, on_char, read_command}
use raspi_cctv_tcp_server.Server.Session.Commands.{one_byte}

-- A connection on which nothing fails: SSL_read gives nothing only when no byte is to come, and
-- every SSL_write succeeds.
pub record Healthy (N : Tls) (tls : TlsContract N) : Type 0 where
  pub reads : (c c' : N.Conn) (n : ℕ) → 0 < n → N.read c n ≡ (nothing, c') → tls.incoming c ≡ []
  pub writes : (c : N.Conn) (t : Text) → (N.write c t).0 ≡ true

module _ (E : Env) (N : Tls) (tls : TlsContract N) (healthy : Healthy N tls) where
  open tls use {incoming, sent}

  -- The bytes `t` have been taken off, the rest is still to be read, and nothing was written.
  pub record Took (rest : Text) (c : N.Conn) (input : Input) (o : Input × N.Conn) : Type 0 where
    pub reads : o.0 ≡ input
    pub left : incoming o.1 ≡ rest
    pub quiet : sent o.1 ≡ sent c

  -- The next byte, alone; `more` is empty, and not looked at.
  record First (b : ℕ) (t : Text) (c : N.Conn) : Type 0 where
    more : List ℕ
    next : N.Conn
    gives : N.read c 1 ≡ (bytes b more, next)
    left : incoming next ≡ t
    quiet : sent next ≡ sent c

  head_byte : (b : ℕ) (t : Text) (c : N.Conn) → incoming c ≡ b ∷ t → First b t c
  head_byte b t c e = at_read (N.read c 1) refl
    where
      at_read : (x : Received × N.Conn) → N.read c 1 ≡ x → First b t c
      at_read (nothing, c') h = let z = healthy.reads c c' 1 (omega arith) h in cc
      at_read (bytes x xs, c') h =
          let (all, same) = one_byte E N tls c c' x xs h in
          let both : x ∷ incoming c' ≡ b ∷ t = all ∙ e in
          let first : x ≡ b = cc in
          record {
            more = xs;
            next = c';
            gives = h ∙ ap (λ (y : ℕ). (bytes y xs, c')) first;
            left = cc;
            quiet = same;
          }

  pub read_line :
      (fuel : ℕ) (ln rest cmd : Text) (c : N.Conn)
      → length ln < fuel
      → All (NotChar 10) ln
      → incoming c ≡ ln ++ 10 ∷ rest
      → Took rest c (command (cmd ++ (ln ++ 10 ∷ []))) (read_command E N fuel cmd c)
  unfolding read_command
  read_line zero ln rest cmd c enough clean e = elim enough [ ]
  read_line (suc fuel) [] rest cmd c enough clean e =
      let f = head_byte 10 rest c e in
      rw (f.gives) (record { reads = refl; left = f.left; quiet = f.quiet })
  read_line (suc fuel) (b ∷ ln) rest cmd c enough (p, clean) e =
      let f = head_byte b (ln ++ 10 ∷ rest) c e in
      let t = read_line fuel ln rest (cmd ++ b ∷ []) f.next (omega arith) clean f.left in
      rw (f.gives, on_char, p)
        (record {
          reads = t.reads ∙ ap command (append_assoc cmd (b ∷ []) (ln ++ 10 ∷ []));
          left = t.left;
          quiet = t.quiet ∙ f.quiet;
        })

  -- Bytes without a line feed, and no more: the connection has ended.
  pub read_end :
      (fuel : ℕ) (tail cmd : Text) (c : N.Conn)
      → length tail < fuel
      → All (NotChar 10) tail
      → incoming c ≡ tail
      → Took [] c ended (read_command E N fuel cmd c)
  unfolding read_command
  read_end zero tail cmd c enough clean e = elim enough [ ]
  read_end (suc fuel) [] cmd c enough clean e = at_read (N.read c 1) refl
    where
      at_read :
          (x : Received × N.Conn)
          → N.read c 1 ≡ x
          → Took [] c ended (on_char E N (read_command E N fuel) cmd x)
      at_read (nothing, c') h =
          let (same, quiet) = tls.read-nothing c c' 1 h in
          record { reads = refl; left = same ∙ e; quiet = quiet }
      at_read (bytes x xs, c') h =
          let z : x ∷ incoming c' ≡ [] = (one_byte E N tls c c' x xs h).0 ∙ e in cc
  read_end (suc fuel) (b ∷ tail) cmd c enough (p, clean) e =
      let f = head_byte b tail c e in
      let t = read_end fuel tail (cmd ++ b ∷ []) f.next (omega arith) clean f.left in
      rw (f.gives, on_char, p)
        (record { reads = t.reads; left = t.left; quiet = t.quiet ∙ f.quiet })

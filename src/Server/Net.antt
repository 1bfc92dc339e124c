-- ===== src/Server/Net.antt =====
-- The TLS connection of a client, a parameter, and the state that a client's thread works on.
use raspi_cctv_tcp_server.Prelude.{ℕ, ◌≤◌, Bool, true, List, ◌∷◌, ◌++◌, Text, ◌≡◌, length}
use raspi_cctv_tcp_server.Server.Env.{Env, World}

-- SSL_read: at least one byte, or no byte at all (a result that is not positive).
pub data Received : Type 0 where
  nothing : Received
  bytes : ℕ → List ℕ → Received

pub record Tls : Type 1 where
  pub Conn : Type 0
  -- SSL_read(ssl, buffer, n)
  pub read : Conn → ℕ → Received × Conn
  -- SSL_write(ssl, text, size) > 0
  pub write : Conn → Text → Bool × Conn
  -- the system's htonl
  pub htonl : ℕ → ℕ

-- Bytes come in the order in which the client sent them, and never more than were asked for.
-- `incoming` is what the client will have sent before the connection fails or ends.
pub record TlsContract (N : Tls) : Type 0 where
  pub incoming : N.Conn → Text
  pub sent : N.Conn → Text
  pub read-bytes :
      (c c' : N.Conn) (n b : ℕ) (bs : List ℕ)
      → N.read c n ≡ (bytes b bs, c')
      → (b ∷ bs ++ incoming c' ≡ incoming c) × (length (b ∷ bs) ≤ n) × (sent c' ≡ sent c)
  pub read-nothing :
      (c c' : N.Conn) (n : ℕ)
      → N.read c n ≡ (nothing, c')
      → (incoming c' ≡ incoming c) × (sent c' ≡ sent c)
  pub incoming-write : (c : N.Conn) (t : Text) → incoming (N.write c t).1 ≡ incoming c
  pub sent-write :
      (c : N.Conn) (t : Text) → (N.write c t).0 ≡ true → sent (N.write c t).1 ≡ sent c ++ t

pub record Link (E : Env) (N : Tls) : Type 0 where
  pub world : World E
  pub conn : N.Conn

module _ (E : Env) (N : Tls) where
  -- SSL_write whose result is not looked at
  abbrev pub send : Text → Link E N → Link E N
  send t l = record l { conn = (N.write l.conn t).1 }

  abbrev pub with_disk : E.files.Disk → Link E N → Link E N
  with_disk d l = record l { world = record l.world { disk = d } }

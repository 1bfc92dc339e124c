-- ===== src/Server/Session/Commands.antt =====
-- How a client's bytes are cut into lines.
use raspi_cctv_tcp_server.Prelude.{
  ℕ, zero, suc, ◌≤◌, ◌<◌, List, [], ◌∷◌, ◌++◌, Text, ◌≡◌, ◌⊎◌, inl, inr, refl, ap, ◌∙◌, arith,
  length, append_assoc, All, All-append, ◌==◌, ==_iff, subst, Bool-cases,
}
use raspi_cctv_tcp_server.Stream.Words.{NotChar}
use raspi_cctv_tcp_server.Server.Env.{Env}
use raspi_cctv_tcp_server.Server.Net.{Tls, TlsContract, Received, nothing, bytes}
use raspi_cctv_tcp_server.Server.Session.{Input, ended, command, on_char, read_command}

module _ (E : Env) (N : Tls) (tls : TlsContract N) where
  open tls use {incoming, sent}

  -- The bytes `cmd` and those that were read behind them are a line with its line feed; what
  -- follows on the connection is still to be read, and nothing was written.
  pub record Line (cmd : Text) (c : N.Conn) (o : Input × N.Conn) : Type 0 where
    pub line : Text
    pub reads : o.0 ≡ command (line ++ 10 ∷ [])
    pub clean : All (NotChar 10) line
    pub taken : line ++ 10 ∷ incoming o.1 ≡ cmd ++ incoming c
    pub quiet : sent o.1 ≡ sent c

  abbrev pub LineOrEnd : Text → N.Conn → Input × N.Conn → Type 0
  LineOrEnd cmd c o = Line cmd c o ⊎ (o.0 ≡ ended)

  no_more : (b : ℕ) (bs : List ℕ) → length (b ∷ bs) ≤ 1 → bs ≡ []
  no_more b [] h = refl
  no_more b (x ∷ bs) h = absurd (omega arith)

  pub one_byte :
      (c c' : N.Conn) (b : ℕ) (bs : List ℕ)
      → N.read c 1 ≡ (bytes b bs, c')
      → (b ∷ incoming c' ≡ incoming c) × (sent c' ≡ sent c)
  one_byte c c' b bs e =
      let (next, few, same) = tls.read-bytes c c' 1 b bs e in
      (subst (λ (r : List ℕ). b ∷ r ++ incoming c' ≡ incoming c) (no_more b bs few) next, same)

  -- A byte that is not the line feed, and the rest of the line.
  longer :
      (cmd : Text) (b : ℕ) (c c' : N.Conn) (o : Input × N.Conn)
      → (b ∷ incoming c' ≡ incoming c) × (sent c' ≡ sent c)
      → LineOrEnd (cmd ++ b ∷ []) c' o
      → LineOrEnd cmd c o
  longer cmd b c c' o (next, same) (inl s) = inl (record {
    line = s.line;
    reads = s.reads;
    clean = s.clean;
    taken = s.taken ∙ append_assoc cmd (b ∷ []) _ ∙ ap (λ (t : Text). cmd ++ t) next;
    quiet = s.quiet ∙ same;
  })
  longer cmd b c c' o n (inr e) = inr e

  read_more :
      (fuel : ℕ) (cmd : Text) (c : N.Conn)
      → length (incoming c) < fuel
      → All (NotChar 10) cmd
      → LineOrEnd cmd c (read_command E N fuel cmd c)
  unfolding read_command
  read_more zero cmd c enough clean = elim enough [ ]
  read_more (suc fuel) cmd c enough clean =
      at_read (N.read c 1) refl (λ cmd' c' less k. read_more fuel cmd' c' (omega arith) k)
    where
      at_read :
          (x : Received × N.Conn)
          → N.read c 1 ≡ x
          → ((cmd' : Text) (c' : N.Conn)
              → length (incoming c') < length (incoming c)
              → All (NotChar 10) cmd'
              → LineOrEnd cmd' c' (read_command E N fuel cmd' c'))
          → LineOrEnd cmd c (on_char E N (read_command E N fuel) cmd x)
      at_read (nothing, c') e rec = inr refl
      at_read (bytes b bs, c') e rec =
          let (next, same) = one_byte c c' b bs e in
          elim (Bool-cases (b == 10)) [
            | inl feed ↦
                let is_feed : b ≡ 10 = (==_iff b 10).0 feed in
                rw (feed, on_char)
                  (inl (record {
                    line = cmd;
                    reads = ap (λ (x : ℕ). command (cmd ++ x ∷ [])) is_feed;
                    clean = clean;
                    taken =
                        ap (λ (t : Text). cmd ++ t)
                          (subst (λ (x : ℕ). x ∷ incoming c' ≡ incoming c) is_feed next);
                    quiet = same;
                  }))
            | inr other ↦
                rw (other, on_char)
                  (longer cmd b c c' _ (next, same)
                    (rec (cmd ++ b ∷ []) c' (ground (arith, ap length next))
                      (All-append (NotChar 10) cmd (b ∷ []) clean (other, tt))))
          ]

  -- With more fuel than there are bytes to come, reading a command does not run out of fuel:
  -- either the connection has ended, or the command is the next bytes of the connection up to and
  -- with their first line feed, the bytes behind it are still to be read, and nothing was written.
  pub read_command_lem :
      (fuel : ℕ) (c : N.Conn)
      → length (incoming c) < fuel
      → LineOrEnd [] c (read_command E N fuel [] c)
  read_command_lem fuel c enough = read_more fuel [] c enough tt

-- ===== src/Server/Auth/Threads/Interleaving.antt =====
-- What the requests on accounts come to, whatever the order of the threads' calls.
use raspi_cctv_tcp_server.Prelude.{
  ◌+◌, ◌≤◌, false, [], ◌∷◌, Text, ◌≡◌, sym, ap, ◌∙◌, subst, arith, c_str,
}
use raspi_cctv_tcp_server.Exec.{ok, ok_injective}
use raspi_cctv_tcp_server.Db.Contract.{Tables, UserStatements}
use raspi_cctv_tcp_server.Db.Users.Table.{IsKeyed}
use raspi_cctv_tcp_server.Server.Env.{Env, World}
use raspi_cctv_tcp_server.Server.Auth.Threads.{
  Thread, Server, Step, arrives, moves, ticks, Reaches, here, later,
}
use raspi_cctv_tcp_server.Server.Auth.Threads.Counting.{
  held, signed_up, signed_up-append, held-le_one,
}
use raspi_cctv_tcp_server.Server.Auth.Threads.Moving.{Moved, advance-Moves}

module _ (E : Env) (T : Tables E.sqlite) (laws : UserStatements E.sqlite T) where
  open T use {users}

  -- Between two steps: the keys are distinct, and each address has one row for each thread that has
  -- registered it, beside the rows it had.
  record Counts (before : World E) (s : Server E) : Type 0 where
    keyed : IsKeyed (users s.world.db)
    plain : T.reads_as_number (c_str s.world.now) ≡ false
    rows : (e : Text) → held e (users s.world.db) ≡ held e (users before.db) + signed_up e s.threads

  Step-Counts :
      (start : World E) (s s' : Server E) → Step E T s s' → Counts start s → Counts start s'
  Step-Counts start s s' (arrives r) c = record {
    keyed = c.keyed;
    plain = c.plain;
    rows = λ e. omega (arith, c.rows e);
  }
  Step-Counts start s s' (ticks now plain) c = record {
    keyed = c.keyed;
    plain = plain;
    rows = c.rows;
  }
  Step-Counts start s s' (moves before t t' behind w here_is h) c =
      let (t1, w1, h1, m) = advance-Moves E T laws s.world c.keyed t c.plain in
      let same : (ok t1, w1) ≡ (ok t', w) = sym h1 ∙ h in
      let is_w : w1 ≡ w = ap (λ x. x.1) same in
      let is_t : t1 ≡ t' = ok_injective (ap (λ x. x.0) same) in
      let moved : Moved E T laws t s.world t' w =
        subst (λ (x : World E). Moved E T laws t s.world t' x) is_w
          (subst (λ (x : Thread). Moved E T laws t s.world x w1) is_t m) in
      record {
        keyed = moved.keyed;
        plain = ap (λ (x : Text). T.reads_as_number (c_str x)) moved.now ∙ c.plain;
        rows = λ e. omega (
          arith,
          moved.rows e,
          c.rows e,
          ap (signed_up e) here_is,
          signed_up-append e before (t ∷ behind),
          signed_up-append e before (t' ∷ behind),
        );
      }

  Reaches-Counts :
      (start : World E) (s s' : Server E) → Reaches E T s s' → Counts start s → Counts start s'
  Reaches-Counts start s s' here c = c
  Reaches-Counts start s s' (later r st) c =
      Step-Counts start _ s' st (Reaches-Counts start s _ r c)

  -- Under SQLite's contract, from a table of distinct identities and addresses, and at times that
  -- do not read as numbers:
  -- whatever requests on accounts come in, and in whatever order the threads' calls of the
  -- database are made, identities and addresses stay distinct; an address has one row more for
  -- each thread whose registration of it was answered with success, and so at most one thread is
  -- told that it registered an address, and none if the address was taken before.
  pub Reaches-OneRow :
      (w : World E) (s : Server E)
      → IsKeyed (users w.db)
      → T.reads_as_number (c_str w.now) ≡ false
      → Reaches E T (record { threads = []; world = w }) s
      → IsKeyed (users s.world.db)
        × ((e : Text)
            → (held e (users s.world.db) ≡ held e (users w.db) + signed_up e s.threads)
              × (held e (users w.db) + signed_up e s.threads ≤ 1))
  Reaches-OneRow w s keyed plain reached =
      let start : Server E = record { threads = []; world = w } in
      let c =
        Reaches-Counts w start s reached
          (record { keyed = keyed; plain = plain; rows = λ e. omega arith }) in
      (
        c.keyed,
        λ e. (c.rows e, omega (arith, c.rows e, held-le_one e (users s.world.db) c.keyed.emails)),
      )

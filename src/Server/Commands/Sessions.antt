-- ===== src/Server/Commands/Sessions.antt =====
-- Accounts as a client meets them: lines in, replies out.
use raspi_cctv_tcp_server.Prelude.{
  none, some, false, [], ◌∷◌, ◌++◌, Text, ◌≡◌, refl, arith, find, All, All-append, c_str, text_eq,
  text_eq_refl, if◌then◌else◌, ◌∙◌,
}
use raspi_cctv_tcp_server.Exec.{ok}
use raspi_cctv_tcp_server.Stream.Words.{IsWord, NoSpace, NotChar}
use raspi_cctv_tcp_server.Db.Model.{User}
use raspi_cctv_tcp_server.Db.Contract.{Tables, UserStatements, has_email}
use raspi_cctv_tcp_server.Db.Users.Table.{IsKeyed}
use raspi_cctv_tcp_server.Server.Env.{Env, World}
use raspi_cctv_tcp_server.Server.Response.{Response, error, success}
use raspi_cctv_tcp_server.Server.Auth.{hash_password}
use raspi_cctv_tcp_server.Server.Auth.Accounts.{
  Request, sign_up, sign_in, reset, perform, view, after, perform-Served,
}
use raspi_cctv_tcp_server.Server.Auth.Runs.{handlers_words}
use raspi_cctv_tcp_server.Server.Commands.{handle}
use raspi_cctv_tcp_server.Server.Commands.Lines
use raspi_cctv_tcp_server.Server.Commands.Lines.{line, handle-line}

pub no_line_feed : (w : Text) → All NoSpace w → All (NotChar 10) w
no_line_feed [] h = tt
no_line_feed (c ∷ w) (p, h) = (ground arith, no_line_feed w h)

two_words : (e p : Text) → IsWord e → IsWord p → All (NotChar 10) (e ++ 32 ∷ p)
two_words e p he hp =
    All-append (NotChar 10) e (32 ∷ p) (no_line_feed e he.1) (refl, no_line_feed p hp.1)

module _ (E : Env) (e p : Text) (he : IsWord e) (hp : IsWord p) where
  line_of : (k : Lines.Command) → handle E (line E k (e ++ 32 ∷ p)) ≡ Lines.run E k (e ++ 32 ∷ p)
  line_of k = handle-line E k (e ++ 32 ∷ p) (two_words e p he hp)

  register_line : handle E (line E Lines.sign_up (e ++ 32 ∷ p)) ≡ perform E (sign_up e p)
  register_line = line_of Lines.sign_up ∙ (handlers_words E e p he hp).0

  login_line : handle E (line E Lines.sign_in (e ++ 32 ∷ p)) ≡ perform E (sign_in e p)
  login_line = line_of Lines.sign_in ∙ (handlers_words E e p he hp).1

  reset_line : handle E (line E Lines.reset_password (e ++ 32 ∷ p)) ≡ perform E (reset e p)
  reset_line = line_of Lines.reset_password ∙ (handlers_words E e p he hp).2

module _ (E : Env) (T : Tables E.sqlite) (laws : UserStatements E.sqlite T) where
  -- What LOGIN answers when the stored hash is that of `p` and the password given is `q`.
  abbrev pub login_reply : Text → Text → Response
  login_reply p q =
      if text_eq (hash_password E p) (hash_password E q)
      then success 200 "Login successful"
      else error 401 "Invalid email or password"

  module _ (e p q : Text) (w : World E) (he : IsWord e) (hp : IsWord p) (hq : IsWord q)
      (keyed : IsKeyed (T.users w.db)) (plain : T.reads_as_number (c_str w.now) ≡ false) where
    -- A request after which the address has the hash of `p` decides what LOGIN answers.
    login_after :
        (r : Request)
        → after E r (view E T w) (c_str e) ≡ some (hash_password E p)
        → (perform E (sign_in e q) (perform E r w).1).0 ≡ ok (login_reply p q)
    login_after r now_p =
        let s = perform-Served E T laws w keyed r plain in
        let s' = perform-Served E T laws (perform E r w).1 s.keyed (sign_in e q) (rw s.now plain) in
        s'.reply ∙ rw (he.0, hq.0, s.accounts (c_str e), now_p) refl

    -- On a table with distinct identities and addresses, and at a time that does not read as a
    -- number: the line REGISTER with an address that no user has, and a password, both words, is
    -- answered with success; then the line LOGIN with the address and any word is answered with
    -- success if the word's digest text is that of the registered password, and with error 401 if
    -- not.
    pub login-register :
        find (has_email (c_str e)) (T.users w.db) ≡ none
        → let o = handle E (line E Lines.sign_up (e ++ 32 ∷ p)) w in
          (o.0 ≡ ok (success 200 "User registered successfully"))
          × ((handle E (line E Lines.sign_in (e ++ 32 ∷ q)) o.1).0 ≡ ok (login_reply p q))
    login-register absent =
        rw (register_line E e p he hp, login_line E e q he hq)
          (
            (perform-Served E T laws w keyed (sign_up e p) plain).reply
                ∙ rw (he.0, hp.0, absent) refl,
            login_after (sign_up e p) (rw (he.0, hp.0, absent, text_eq_refl) refl),
          )

    -- On a table with distinct identities and addresses, and at a time that does not read as a
    -- number: the line RESET_PASSWORD with the address of a user and a password, both words, is
    -- answered with success; then the line LOGIN with the address and any word is answered with
    -- success if the word's digest text is that of the new password, and with error 401 if not.
    pub login-reset_password :
        (u : User)
        → find (has_email (c_str e)) (T.users w.db) ≡ some u
        → let o = handle E (line E Lines.reset_password (e ++ 32 ∷ p)) w in
          (o.0 ≡ ok (success 200 "Password reset successful"))
          × ((handle E (line E Lines.sign_in (e ++ 32 ∷ q)) o.1).0 ≡ ok (login_reply p q))
    login-reset_password u found =
        rw (reset_line E e p he hp, login_line E e q he hq)
          (
            (perform-Served E T laws w keyed (reset e p) plain).reply ∙ rw (he.0, hp.0, found) refl,
            login_after (reset e p) (rw (he.0, hp.0, found, text_eq_refl) refl),
          )

-- ===== src/Server/Auth/Runs.antt =====
-- Sequences of account requests, and the same requests as lines of the protocol.
use raspi_cctv_tcp_server.Prelude.{
  false, List, [], ◌∷◌, ◌++◌, Text, ◌≡◌, refl, fun_ext, ap, All, c_str, ◌∙◌,
}
use raspi_cctv_tcp_server.Exec.{Exec, Result, ok}
use raspi_cctv_tcp_server.Stream.Words.{IsWord, read_word-append, read_word_blank, read_word_last}
use raspi_cctv_tcp_server.Db.Contract.{Tables, UserStatements}
use raspi_cctv_tcp_server.Db.Users.Table.{IsKeyed}
use raspi_cctv_tcp_server.Server.Env.{Env, World}
use raspi_cctv_tcp_server.Server.Response.{Response}
use raspi_cctv_tcp_server.Server.Auth.{
  credentials, handle_register, handle_login, handle_reset_password,
}
use raspi_cctv_tcp_server.Server.Auth.Accounts.{
  Request, sign_up, sign_in, reset, View, perform, view, reply_to, after, perform-Served,
}

module _ (E : Env) where
  -- Requests, each with the time at which it is served.
  abbrev pub Timed : Type 0
  Timed = List (Text × Request)

  abbrev at_time : Text → World E → World E
  at_time t w = record w { now = t }

  unfoldable pub serve : Timed → World E → List (Result Response) × World E
  serve [] w = ([], w)
  serve ((t, r) ∷ rest) w =
      let o = perform E r (at_time t w) in let later = serve rest o.1 in (o.0 ∷ later.0, later.1)

  -- The specification of a sequence.
  abbrev pub replies : Timed → View → List (Result Response)
  replies [] v = []
  replies ((t, r) ∷ rest) v = ok (reply_to E r v) ∷ replies rest (after E r v)

  abbrev pub accounts_after : Timed → View → View
  accounts_after [] v = v
  accounts_after ((t, r) ∷ rest) v = accounts_after rest (after E r v)

  module _ (T : Tables E.sqlite) (laws : UserStatements E.sqlite T) where
    abbrev pub PlainTimes : Timed → Type 0
    PlainTimes = All (λ q. T.reads_as_number (c_str q.0) ≡ false)

    -- From a table whose identities and addresses are distinct, any sequence of REGISTER, LOGIN
    -- and RESET_PASSWORD requests, each at a time that does not read as a number, is answered as
    -- the specification over a map from addresses to hashes says; it leaves the accounts that the
    -- specification leaves, and distinct identities and addresses.
    pub serve-Served :
        (qs : Timed) (w : World E)
        → PlainTimes qs
        → IsKeyed (T.users w.db)
        → ((serve qs w).0 ≡ replies qs (view E T w))
          × (view E T (serve qs w).1 ≡ accounts_after qs (view E T w))
          × IsKeyed (T.users (serve qs w).1.db)
    unfolding serve
    serve-Served [] w plain keyed = (refl, refl, keyed)
    serve-Served ((t, r) ∷ rest) w (p, plain) keyed =
        let s = perform-Served E T laws (at_time t w) keyed r p in
        let same : view E T (perform E r (at_time t w)).1 ≡ after E r (view E T w) =
          fun_ext s.accounts in
        let (rs, vs, ks) = serve-Served rest (perform E r (at_time t w)).1 plain s.keyed in
        (cc (s.reply, rs), vs ∙ ap (accounts_after rest) same, ks)

  credentials_words : (e p : Text) → IsWord e → IsWord p → credentials (e ++ 32 ∷ p) ≡ (e, p)
  credentials_words e p he hp =
      unfold credentials in
      rw (read_word-append [] e p he, read_word_blank [] p, read_word_last [] p hp) refl

  abbrev with_words : (Text → Text → Request) → Text → Exec (World E) Response
  with_words request payload = let c = credentials payload in perform E (request c.0 c.1)

  handlers-with_words :
      (payload : Text)
      → (handle_register E payload ≡ with_words sign_up payload)
        × (handle_login E payload ≡ with_words sign_in payload)
        × (handle_reset_password E payload ≡ with_words reset payload)
  unfolding handle_register handle_login handle_reset_password
  handlers-with_words payload = (refl, refl, refl)

  -- A payload of two words, neither of them empty, with a blank between them is, for each of the
  -- three handlers, the request with these words.
  pub handlers_words :
      (e p : Text)
      → IsWord e
      → IsWord p
      → (handle_register E (e ++ 32 ∷ p) ≡ perform E (sign_up e p))
        × (handle_login E (e ++ 32 ∷ p) ≡ perform E (sign_in e p))
        × (handle_reset_password E (e ++ 32 ∷ p) ≡ perform E (reset e p))
  handlers_words e p he hp =
      let words = credentials_words e p he hp in
      let (up, back, new) = handlers-with_words (e ++ 32 ∷ p) in
      (
        up ∙ ap (λ c. perform E (sign_up c.0 c.1)) words,
        back ∙ ap (λ c. perform E (sign_in c.0 c.1)) words,
        new ∙ ap (λ c. perform E (reset c.0 c.1)) words,
      )

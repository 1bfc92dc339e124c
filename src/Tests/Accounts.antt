-- ===== src/Tests/Accounts.antt =====
-- Accounts: the theorems on registration, login and reset at concrete requests.
use raspi_cctv_tcp_server.Prelude.{[], ◌∷◌, ◌++◌, Text, codes, ◌≡◌, refl, has_char, c_str, text_eq}
use raspi_cctv_tcp_server.Exec.{ok}
use raspi_cctv_tcp_server.Stream.Words.{IsWord}
use raspi_cctv_tcp_server.Db.Users.Table.{IsKeyed}
use raspi_cctv_tcp_server.Db.Memory.{tables}
use raspi_cctv_tcp_server.Db.Memory.Users.{user_statements}
use raspi_cctv_tcp_server.Server.Response.{success}
use raspi_cctv_tcp_server.Server.Auth.Accounts.{
  sign_up, sign_in, reset, perform, view, Served, perform-Served,
}
use raspi_cctv_tcp_server.Server.Auth.Runs.{
  Timed, serve, replies, accounts_after, PlainTimes, serve-Served,
}
use raspi_cctv_tcp_server.Server.Commands.{handle}
use raspi_cctv_tcp_server.Server.Commands.Lines
use raspi_cctv_tcp_server.Server.Commands.Lines.{line}
use raspi_cctv_tcp_server.Server.Commands.Sessions.{
  login_reply, login-register, login-reset_password,
}
use raspi_cctv_tcp_server.Tests.Sample.{env, world, world-IsKeyed, ann, ann_user, bob, noon}

perform-Served_example :
    Served env tables
      (sign_up bob (codes "secret"))
      world
      (perform env (sign_up bob (codes "secret")) world)
unfolding has_char c_str
perform-Served_example =
    perform-Served env tables user_statements world world-IsKeyed (sign_up bob (codes "secret"))
      refl

abbrev day : Timed env
day =
    (noon, sign_up bob (codes "one"))
    ∷ (noon, sign_in bob (codes "one"))
    ∷ (noon, reset bob (codes "two"))
    ∷ (noon, sign_in bob (codes "one"))
    ∷ (noon, sign_up ann (codes "three"))
    ∷ []

day-PlainTimes : PlainTimes env tables user_statements day
unfolding has_char c_str
day-PlainTimes = (refl, (refl, (refl, (refl, (refl, tt)))))

serve-Served_example :
    ((serve env day world).0 ≡ replies env day (view env tables world))
    × (view env tables (serve env day world).1 ≡ accounts_after env day (view env tables world))
    × IsKeyed (tables.users (serve env day world).1.db)
serve-Served_example =
    serve-Served env tables user_statements day world day-PlainTimes world-IsKeyed

bob-IsWord : IsWord bob
bob-IsWord = (refl, (refl, (refl, (refl, (refl, (refl, tt))))))

ann-IsWord : IsWord ann
ann-IsWord = (refl, (refl, (refl, (refl, (refl, (refl, tt))))))

abbrev one : Text
one = codes "one"

one-IsWord : IsWord one
one-IsWord = (refl, (refl, (refl, (refl, tt))))

abbrev two : Text
two = codes "two"

two-IsWord : IsWord two
two-IsWord = (refl, (refl, (refl, (refl, tt))))

login-register_example :
    let o = handle env (line env Lines.sign_up (bob ++ 32 ∷ one)) world in
    (o.0 ≡ ok (success 200 "User registered successfully"))
    × ((handle env (line env Lines.sign_in (bob ++ 32 ∷ two)) o.1).0
        ≡ ok (login_reply env tables user_statements one two))
unfolding has_char c_str text_eq
login-register_example =
    login-register env tables user_statements bob one two world bob-IsWord one-IsWord two-IsWord
      world-IsKeyed refl refl

login-reset_password_example :
    let o = handle env (line env Lines.reset_password (ann ++ 32 ∷ one)) world in
    (o.0 ≡ ok (success 200 "Password reset successful"))
    × ((handle env (line env Lines.sign_in (ann ++ 32 ∷ two)) o.1).0
        ≡ ok (login_reply env tables user_statements one two))
unfolding has_char c_str text_eq
login-reset_password_example =
    login-reset_password env tables user_statements ann one two world ann-IsWord one-IsWord
      two-IsWord world-IsKeyed refl ann_user refl

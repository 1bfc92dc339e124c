-- ===== src/Server/Auth/Keeping.antt =====
-- The commands on accounts keep the server's state sound.
use raspi_cctv_tcp_server.Prelude.{
  Bool, if◌then◌else◌, Option, none, some, ◌||◌, not, Text, is_empty, is_none, text_eq,
}
use raspi_cctv_tcp_server.Exec.Keeping.{Keeps, bind-Keeps, if-Keeps}
use raspi_cctv_tcp_server.Db.Model.{User}
use raspi_cctv_tcp_server.Db.Contract.{Tables}
use raspi_cctv_tcp_server.Db.Contract.Outcomes.{Outcomes}
use raspi_cctv_tcp_server.Db.Users.{get_user_by_email, create_user, update_user_password}
use raspi_cctv_tcp_server.Db.Users.Keeping.{create_user-KeyedStep, update_user_password-KeyedStep}
use raspi_cctv_tcp_server.Server.Env.{Env, World, on_db}
use raspi_cctv_tcp_server.Exec.{pure}
use raspi_cctv_tcp_server.Server.Response.{Response}
use raspi_cctv_tcp_server.Server.Overlay.Contract.{JsonContract}
use raspi_cctv_tcp_server.Server.Soundness.{IsSound, lookup-Keeps, keyed-Keeps}
use raspi_cctv_tcp_server.Server.Auth.{
  hash_password, new_user, register, check_password, login, change_password, reset_password,
  handle_register, handle_login, handle_reset_password,
}

module _ (E : Env) (T : Tables E.sqlite) (json : JsonContract E.json)
    (outcomes : Outcomes E.sqlite T) where
  abbrev Sound : World E → Type 0
  Sound = IsSound E T json

  reply_if-Keeps : (b : Bool) (r r' : Response) → Keeps Sound (if b then pure r else pure r')
  reply_if-Keeps b r r' = if-Keeps Sound b (pure r) (pure r') (λ w s. s) (λ w s. s)

  register-Keeps : (email password : Text) → Keeps Sound (register E email password)
  unfolding register
  register-Keeps email password =
      if-Keeps Sound (is_empty email || is_empty password) _ _ (λ w s. s)
        (bind-Keeps Sound (on_db E (get_user_by_email E.sqlite email)) _
          (lookup-Keeps E T json outcomes email)
          λ found.
            if-Keeps Sound (not (is_none found)) _ _ (λ w s. s)
              (λ w.
                let user = new_user email (hash_password E password) w.now in
                (bind-Keeps Sound (on_db E (create_user E.sqlite user)) _
                    (keyed-Keeps E T json outcomes (create_user E.sqlite user)
                      (create_user-KeyedStep E.sqlite T outcomes user))
                    λ created. reply_if-Keeps (not created) _ _)
                  w))

  login-Keeps : (email password : Text) → Keeps Sound (login E email password)
  unfolding login
  login-Keeps email password =
      if-Keeps Sound (is_empty email || is_empty password) _ _ (λ w s. s)
        (bind-Keeps Sound (on_db E (get_user_by_email E.sqlite email)) _
          (lookup-Keeps E T json outcomes email) checks)
    where
      checks : (found : Option User) → Keeps Sound (check_password E password found)
      checks none = λ w s. s
      checks (some user) =
          reply_if-Keeps (not (text_eq user.password_hash (hash_password E password))) _ _

  reset_password-Keeps : (email password : Text) → Keeps Sound (reset_password E email password)
  unfolding reset_password
  reset_password-Keeps email password =
      if-Keeps Sound (is_empty email || is_empty password) _ _ (λ w s. s)
        (bind-Keeps Sound (on_db E (get_user_by_email E.sqlite email)) _
          (lookup-Keeps E T json outcomes email) changes)
    where
      changes : (found : Option User) → Keeps Sound (change_password E password found)
      changes none = λ w s. s
      changes (some user) =
          let update = update_user_password E.sqlite user.id (hash_password E password) in
          bind-Keeps Sound (on_db E update) _
            (keyed-Keeps E T json outcomes update (
              update_user_password-KeyedStep E.sqlite T outcomes user.id
                (hash_password E password)))
            λ updated. reply_if-Keeps (not updated) _ _

  pub handle_register-Keeps : (payload : Text) → Keeps Sound (handle_register E payload)
  unfolding handle_register
  handle_register-Keeps payload = register-Keeps _ _

  pub handle_login-Keeps : (payload : Text) → Keeps Sound (handle_login E payload)
  unfolding handle_login
  handle_login-Keeps payload = login-Keeps _ _

  pub handle_reset_password-Keeps : (payload : Text) → Keeps Sound (handle_reset_password E payload)
  unfolding handle_reset_password
  handle_reset_password-Keeps payload = reset_password-Keeps _ _

-- ===== src/Server/Auth/Fuel.antt =====
-- How the commands on accounts end: in a value, or in a fault of a kind.
use raspi_cctv_tcp_server.Prelude.{Option, none, some, ◌||◌, not, Text, is_empty, is_none, text_eq}
use raspi_cctv_tcp_server.Exec.{Fault}
use raspi_cctv_tcp_server.Exec.Fuel.{AlwaysEndsIn, bind-EndsIn, if-EndsIn}
use raspi_cctv_tcp_server.Db.Model.{User}
use raspi_cctv_tcp_server.Db.Users.{get_user_by_email, create_user, update_user_password}
use raspi_cctv_tcp_server.Db.Users.Faults.{create_user-EndsIn, update_user_password-EndsIn}
use raspi_cctv_tcp_server.Server.Env.{Env, on_db}
use raspi_cctv_tcp_server.Server.Env.Fuel.{Calls, on_db-EndsIn, reply_if-EndsIn, found-EndsIn}
use raspi_cctv_tcp_server.Server.Auth.{
  hash_password, new_user, register, check_password, login, change_password, reset_password,
  handle_register, handle_login, handle_reset_password,
}

module _ (E : Env) (Q : Fault → Type 0) (calls : Calls E Q) where
  register-EndsIn : (email password : Text) → AlwaysEndsIn Q (register E email password)
  unfolding register
  register-EndsIn email password =
      if-EndsIn Q (is_empty email || is_empty password) _ _ (λ w. tt)
        (bind-EndsIn Q (on_db E (get_user_by_email E.sqlite email)) _ (found-EndsIn E Q calls email)
          λ found.
            if-EndsIn Q (not (is_none found)) _ _ (λ w. tt)
              (λ w.
                let now = w.now in
                (bind-EndsIn Q
                    (on_db E (create_user E.sqlite (new_user email (hash_password E password) now)))
                    _
                    (on_db-EndsIn E Q
                      (create_user E.sqlite (new_user email (hash_password E password) now))
                      (create_user-EndsIn E.sqlite Q
                        (new_user email (hash_password E password) now)))
                    λ created. reply_if-EndsIn E Q (not created) _ _)
                  w))

  login-EndsIn : (email password : Text) → AlwaysEndsIn Q (login E email password)
  unfolding login
  login-EndsIn email password =
      if-EndsIn Q (is_empty email || is_empty password) _ _ (λ w. tt)
        (bind-EndsIn Q (on_db E (get_user_by_email E.sqlite email)) _ (found-EndsIn E Q calls email)
          checks)
    where
      checks : (found : Option User) → AlwaysEndsIn Q (check_password E password found)
      checks none = λ w. tt
      checks (some user) =
          reply_if-EndsIn E Q (not (text_eq user.password_hash (hash_password E password))) _ _

  reset_password-EndsIn : (email password : Text) → AlwaysEndsIn Q (reset_password E email password)
  unfolding reset_password
  reset_password-EndsIn email password =
      if-EndsIn Q (is_empty email || is_empty password) _ _ (λ w. tt)
        (bind-EndsIn Q (on_db E (get_user_by_email E.sqlite email)) _ (found-EndsIn E Q calls email)
          changes)
    where
      changes : (found : Option User) → AlwaysEndsIn Q (change_password E password found)
      changes none = λ w. tt
      changes (some user) =
          bind-EndsIn Q (on_db E (update_user_password E.sqlite user.id (hash_password E password)))
            _
            (on_db-EndsIn E Q (update_user_password E.sqlite user.id (hash_password E password))
              (update_user_password-EndsIn E.sqlite Q user.id (hash_password E password)))
            λ updated. reply_if-EndsIn E Q (not updated) _ _

  pub handle_register-EndsIn : (payload : Text) → AlwaysEndsIn Q (handle_register E payload)
  unfolding handle_register
  handle_register-EndsIn payload = register-EndsIn _ _

  pub handle_login-EndsIn : (payload : Text) → AlwaysEndsIn Q (handle_login E payload)
  unfolding handle_login
  handle_login-EndsIn payload = login-EndsIn _ _

  pub handle_reset_password-EndsIn :
      (payload : Text) → AlwaysEndsIn Q (handle_reset_password E payload)
  unfolding handle_reset_password
  handle_reset_password-EndsIn payload = reset_password-EndsIn _ _

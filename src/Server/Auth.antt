-- ===== src/Server/Auth.antt =====
-- src/server/CommandHandler.cpp: handleRegister, handleLogin and handleResetPassword.
pub mod Hashing
pub mod Accounts
pub mod Runs
pub mod Fuel
pub mod Keeping
pub mod Threads
use raspi_cctv_tcp_server.Prelude.{
  ℕ, ◌+◌, ◌/◌, ◌%◌, Option, none, some, Bool, ◌||◌, not, List, [], ◌∷◌, Text, ℤ, negsuc, ltb,
  is_empty, is_none, text_eq, if◌then◌else◌,
}
use raspi_cctv_tcp_server.Exec.{Exec, pure, gets, ◌>>=◌}
use raspi_cctv_tcp_server.Stream.{open_stream, read_word}
use raspi_cctv_tcp_server.Db.Model.{User}
use raspi_cctv_tcp_server.Db.Users.{create_user, get_user_by_email, update_user_password}
use raspi_cctv_tcp_server.Server.Env.{Env, World, on_db}
use raspi_cctv_tcp_server.Server.Response.{Response, error, success}

-- `iss >> email >> password`
unfoldable pub credentials : Text → Text × Text
unfolding open_stream
credentials payload =
    let (email, s) = read_word [] (open_stream payload) in
    let (password, _) = read_word [] s in (email, password)

abbrev hex_digit : ℕ → ℕ
hex_digit d = if ltb d 10 then 48 + d else 87 + d

-- `ss << std::hex << std::setw(2) << std::setfill('0') << (int)hash[i]`
unfoldable pub hex : List ℕ → Text
hex [] = []
hex (b ∷ bs) = hex_digit (b / 16 % 16) ∷ hex_digit (b % 16) ∷ hex bs

-- The fields that handleRegister sets; the identity is the struct's default, -1.
abbrev new_user : Text → Text → Text → User
new_user email hash now = record {
  id = negsuc 0;
  email = email;
  password_hash = hash;
  created_at = now;
}

module _ (E : Env) where
  abbrev pub hash_password : Text → Text
  hash_password password = hex (E.sha256 password)

  unfoldable pub register : Text → Text → Exec (World E) Response
  register email password =
      if is_empty email || is_empty password
      then pure (error 400 "Email or password is missing")
      else do
        found ← on_db E (get_user_by_email E.sqlite email)
        if not (is_none found) then pure (error 409 "Email already exists") else do
          now ← gets (λ w. w.now)
          created ← on_db E (create_user E.sqlite (new_user email (hash_password password) now))
          if not created
              then pure (error 500 "Failed to create user")
              else pure (success 200 "User registered successfully")

  unfoldable pub handle_register : Text → Exec (World E) Response
  unfolding register credentials
  handle_register payload = let (email, password) = credentials payload in register email password

  abbrev check_password : Text → Option User → Exec (World E) Response
  check_password password none = pure (error 404 "User not found")
  check_password password (some user) =
      if not (text_eq user.password_hash (hash_password password))
      then pure (error 401 "Invalid email or password")
      else pure (success 200 "Login successful")

  unfoldable pub login : Text → Text → Exec (World E) Response
  login email password =
      if is_empty email || is_empty password
      then pure (error 400 "Email or password is missing")
      else do found ← on_db E (get_user_by_email E.sqlite email); check_password password found

  unfoldable pub handle_login : Text → Exec (World E) Response
  unfolding login credentials
  handle_login payload = let (email, password) = credentials payload in login email password

  abbrev change_password : Text → Option User → Exec (World E) Response
  change_password new_password none = pure (error 404 "User not found")
  change_password new_password (some user) = do
    updated ← on_db E (update_user_password E.sqlite user.id (hash_password new_password))
    if not updated
        then pure (error 500 "Failed to reset password")
        else pure (success 200 "Password reset successful")

  unfoldable pub reset_password : Text → Text → Exec (World E) Response
  reset_password email new_password =
      if is_empty email || is_empty new_password
      then pure (error 400 "Email or password is missing")
      else do found ← on_db E (get_user_by_email E.sqlite email); change_password new_password found

  unfoldable pub handle_reset_password : Text → Exec (World E) Response
  unfolding reset_password credentials
  handle_reset_password payload =
      let (email, new_password) = credentials payload in reset_password email new_password

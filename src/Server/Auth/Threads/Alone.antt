-- ===== src/Server/Auth/Threads/Alone.antt =====
-- A thread that runs by itself is the handler.
use raspi_cctv_tcp_server.Prelude.{
  Option, none, some, true, false, ◌||◌, ◌≡◌, ◌⊎◌, refl, is_empty, text_eq, Bool-cases, inl, inr,
}
use raspi_cctv_tcp_server.Exec.{Exec, Result, ok, fault, Fault, no_fuel, pure, raise, ◌>>=◌}
use raspi_cctv_tcp_server.Exec.Fuel.{Result-cases}
use raspi_cctv_tcp_server.Db.Model.{User}
use raspi_cctv_tcp_server.Db.Users.{create_user, get_user_by_email, update_user_password}
use raspi_cctv_tcp_server.Server.Env.{Env, World}
use raspi_cctv_tcp_server.Server.Response.{Response}
use raspi_cctv_tcp_server.Server.Auth.{hash_password, new_user, register, login, reset_password}
use raspi_cctv_tcp_server.Server.Auth.Accounts.{Request, sign_up, sign_in, reset, perform}
use raspi_cctv_tcp_server.Server.Auth.Threads.{Thread, starts, replies, advance}

found-cases :
    (r : Result (Option User))
    → ((f : Fault) × (r ≡ fault f)) ⊎ ((r ≡ ok none) ⊎ ((u : User) × (r ≡ ok (some u))))
found-cases (fault f) = inl (f, refl)
found-cases (ok none) = inr (inl refl)
found-cases (ok (some u)) = inr (inr (u, refl))

module _ (E : Env) where
  -- The reply of a thread that has one.
  abbrev pub reply_of : Thread → Exec (World E) Response
  reply_of (replies r x) = pure x
  reply_of t = raise no_fuel

  abbrev pub alone : Request → Exec (World E) Response
  alone r = do t ← advance E (starts r); t' ← advance E t; reply_of t'

  -- The two steps of a request, with no other thread between them, are the handler's body: the
  -- same reply, the same fault, and the same state.
  pub alone-perform : (r : Request) (w : World E) → alone r w ≡ perform E r w
  unfolding advance register login reset_password
  alone-perform (sign_up e p) w =
      let o = get_user_by_email E.sqlite e w.db in
      elim (Bool-cases (is_empty e || is_empty p)) [
        | inl b ↦ rw (b, advance, register) refl
        | inr full ↦ elim (found-cases o.0) [
          | inl (f, bad) ↦ rw (full, bad, advance, register) refl
          | inr (inr (u, taken)) ↦ rw (full, taken, advance, register) refl
          | inr (inl absent) ↦
              let made = create_user E.sqlite (new_user e (hash_password E p) w.now) o.1 in
              elim (Result-cases made.0) [
                | inr (f, bad) ↦ rw (full, absent, bad, advance, register) refl
                | inl (true, done) ↦ rw (full, absent, done, advance, register) refl
                | inl (false, done) ↦ rw (full, absent, done, advance, register) refl
              ]
        ]
      ]
  alone-perform (sign_in e p) w =
      let o = get_user_by_email E.sqlite e w.db in
      elim (Bool-cases (is_empty e || is_empty p)) [
        | inl b ↦ rw (b, advance, login) refl
        | inr full ↦ elim (found-cases o.0) [
          | inl (f, bad) ↦ rw (full, bad, advance, login) refl
          | inr (inl absent) ↦ rw (full, absent, advance, login) refl
          | inr (inr (u, found)) ↦ elim (Bool-cases (text_eq u.password_hash (hash_password E p))) [
            | inl right ↦ rw (full, found, right, advance, login) refl
            | inr wrong ↦ rw (full, found, wrong, advance, login) refl
          ]
        ]
      ]
  alone-perform (reset e p) w =
      let o = get_user_by_email E.sqlite e w.db in
      elim (Bool-cases (is_empty e || is_empty p)) [
        | inl b ↦ rw (b, advance, reset_password) refl
        | inr full ↦ elim (found-cases o.0) [
          | inl (f, bad) ↦ rw (full, bad, advance, reset_password) refl
          | inr (inl absent) ↦ rw (full, absent, advance, reset_password) refl
          | inr (inr (u, found)) ↦
              let made = update_user_password E.sqlite u.id (hash_password E p) o.1 in
              elim (Result-cases made.0) [
                | inr (f, bad) ↦ rw (full, found, bad, advance, reset_password) refl
                | inl (true, done) ↦ rw (full, found, done, advance, reset_password) refl
                | inl (false, done) ↦ rw (full, found, done, advance, reset_password) refl
              ]
        ]
      ]

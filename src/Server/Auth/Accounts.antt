-- ===== src/Server/Auth/Accounts.antt =====
-- The accounts that clients see, a map from addresses to password hashes, and what the three
-- requests do to it.
use raspi_cctv_tcp_server.Prelude.{
  Option, none, some, Bool, true, false, ◌||◌, [], ◌∷◌, ◌++◌, Text, ◌≡◌, refl, arith, find,
  is_empty, c_str, text_eq, if◌then◌else◌, Bool-cases, Option-cases, inl, inr,
}
use raspi_cctv_tcp_server.Exec.{Exec, Result, ok}
use raspi_cctv_tcp_server.Db.Model.{User}
use raspi_cctv_tcp_server.Db.Contract.{Tables, UserStatements, has_email}
use raspi_cctv_tcp_server.Db.Users.Lookup.{
  Leaves, stored, get_user_by_email_lem, create_user_new, update_user_password_lem,
}
use raspi_cctv_tcp_server.Db.Users.Table.{
  account, IsKeyed, account-append, account-set_password, append-IsKeyed, set_password-IsKeyed,
}
use raspi_cctv_tcp_server.Server.Env.{Env, World}
use raspi_cctv_tcp_server.Server.Response.{Response, error, success}
use raspi_cctv_tcp_server.Server.Auth.{register, login, reset_password, new_user, hash_password}
use raspi_cctv_tcp_server.Server.Auth.Hashing.{c_str-hex}

pub data Request : Type 0 where
  sign_up sign_in reset : Text → Text → Request

abbrev pub View : Type 0
View = Text → Option Text

module _ (E : Env) where
  abbrev pub perform : Request → Exec (World E) Response
  perform (sign_up e p) = register E e p
  perform (sign_in e p) = login E e p
  perform (reset e p) = reset_password E e p

  -- The specification: the reply to a request, and the accounts after it. An address counts up to
  -- its first zero byte.
  abbrev verdict : Request → Option Text → Response
  verdict (sign_up e p) none = success 200 "User registered successfully"
  verdict (sign_up e p) (some h) = error 409 "Email already exists"
  verdict (sign_in e p) none = error 404 "User not found"
  verdict (sign_in e p) (some h) =
      if text_eq h (hash_password E p)
      then success 200 "Login successful"
      else error 401 "Invalid email or password"
  verdict (reset e p) none = error 404 "User not found"
  verdict (reset e p) (some h) = success 200 "Password reset successful"

  abbrev pub blank : Request → Bool
  blank (sign_up e p) = is_empty e || is_empty p
  blank (sign_in e p) = is_empty e || is_empty p
  blank (reset e p) = is_empty e || is_empty p

  abbrev address : Request → Text
  address (sign_up e p) = c_str e
  address (sign_in e p) = c_str e
  address (reset e p) = c_str e

  abbrev pub reply_to : Request → View → Response
  reply_to r v =
      if blank r then error 400 "Email or password is missing" else verdict r (v (address r))

  abbrev write : View → Text → Text → View
  write v e h e' = if text_eq e e' then some h else v e'

  abbrev written : Request → Option Text → View → View
  written (sign_up e p) none v = write v (c_str e) (hash_password E p)
  written (sign_up e p) (some h) v = v
  written (sign_in e p) o v = v
  written (reset e p) none v = v
  written (reset e p) (some h) v = write v (c_str e) (hash_password E p)

  abbrev pub after : Request → View → View
  after r v = if blank r then v else written r (v (address r)) v

  module _ (T : Tables E.sqlite) where
    abbrev pub view : World E → View
    view w = account (T.users w.db)

    -- How a request that has been served relates to the specification.
    pub record Served (r : Request) (w : World E) (o : Result Response × World E) : Type 0 where
      pub reply : o.0 ≡ ok (reply_to r (view w))
      pub accounts : (e : Text) → view o.1 e ≡ after r (view w) e
      pub keyed : IsKeyed (T.users o.1.db)
      pub rows : T.rows o.1.db ≡ T.rows w.db
      pub disk : o.1.disk ≡ w.disk
      pub now : o.1.now ≡ w.now

    module _ (laws : UserStatements E.sqlite T) (w : World E) (keyed : IsKeyed (T.users w.db)) where
      -- A request that only replies.
      unchanged :
          (r : Request)
          → ((e : Text) → after r (view w) e ≡ view w e)
          → Served r w (ok (reply_to r (view w)), w)
      unchanged r same = record {
        reply = refl;
        accounts = λ e. cc (same e);
        keyed = keyed;
        rows = refl;
        disk = refl;
        now = refl;
      }

      login_lem : (e p : Text) → login E e p w ≡ (ok (reply_to (sign_in e p) (view w)), w)
      unfolding login
      login_lem e p = ground (arith, get_user_by_email_lem E.sqlite T laws e w.db)

      sign_in-Served : (e p : Text) → Served (sign_in e p) w (login E e p w)
      sign_in-Served e p = rw (login_lem e p) (unchanged (sign_in e p) (λ e'. ground arith))

      register_idle :
          (e p : Text) (u : User)
          → find (has_email (c_str e)) (T.users w.db) ≡ some u
          → register E e p w ≡ (ok (reply_to (sign_up e p) (view w)), w)
      unfolding register
      register_idle e p u h = ground (arith, get_user_by_email_lem E.sqlite T laws e w.db)

      register_blank :
          (e p : Text)
          → (is_empty e || is_empty p) ≡ true
          → register E e p w ≡ (ok (reply_to (sign_up e p) (view w)), w)
      unfolding register
      register_blank e p h = ground arith

      abbrev new_row : Text → Text → User
      new_row e p = stored E.sqlite T laws w.db (new_user e (hash_password E p) w.now)

      -- What the insertion leaves is what the specification says.
      inserted :
          (e p : Text)
          → find (has_email (c_str e)) (T.users w.db) ≡ none
          → (o : Result Bool × E.sqlite.Connection)
          → Leaves E.sqlite T laws w.db true (T.users w.db ++ new_row e p ∷ []) o
          → IsKeyed (T.users o.1)
            × ((e' : Text)
                → account (T.users o.1) e' ≡ write (view w) (c_str e) (hash_password E p) e')
      inserted e p absent o (r, us, rs) = (
        rw us (append-IsKeyed (T.users w.db) _ keyed (laws.next_id_fresh w.db) absent),
        λ e'. rw us (rw (account-append (T.users w.db) (new_row e p) e' absent, c_str-hex) refl),
      )

      register_new :
          (e p : Text)
          → (is_empty e || is_empty p) ≡ false
          → find (has_email (c_str e)) (T.users w.db) ≡ none
          → T.reads_as_number (c_str w.now) ≡ false
          → Served (sign_up e p) w (register E e p w)
      unfolding register
      register_new e p full absent plain =
          let made =
            create_user_new E.sqlite T laws (new_user e (hash_password E p) w.now) w.db absent
              plain in
          let kept = inserted e p absent _ made in
          rw (full, get_user_by_email_lem E.sqlite T laws e w.db, absent, made.0)
            (record {
              reply = ground arith;
              accounts = λ e'. rw (full, absent) (kept.1 e');
              keyed = kept.0;
              rows = made.2;
              disk = refl;
              now = refl;
            })

      sign_up-Served :
          (e p : Text)
          → T.reads_as_number (c_str w.now) ≡ false
          → Served (sign_up e p) w (register E e p w)
      sign_up-Served e p plain = elim (Bool-cases (is_empty e || is_empty p)) [
        | inl b ↦ rw (register_blank e p b) (unchanged (sign_up e p) (λ e'. ground arith))
        | inr full ↦ elim (Option-cases (find (has_email (c_str e)) (T.users w.db))) [
          | inl absent ↦ register_new e p full absent plain
          | inr (u, h) ↦ rw (register_idle e p u h) (unchanged (sign_up e p) (λ e'. ground arith))
        ]
      ]

      reset_idle :
          (e p : Text)
          → find (has_email (c_str e)) (T.users w.db) ≡ none
          → reset_password E e p w ≡ (ok (reply_to (reset e p) (view w)), w)
      unfolding reset_password
      reset_idle e p h = ground (arith, get_user_by_email_lem E.sqlite T laws e w.db)

      reset_blank :
          (e p : Text)
          → (is_empty e || is_empty p) ≡ true
          → reset_password E e p w ≡ (ok (reply_to (reset e p) (view w)), w)
      unfolding reset_password
      reset_blank e p h = ground arith

      reset_found :
          (e p : Text) (u : User)
          → (is_empty e || is_empty p) ≡ false
          → find (has_email (c_str e)) (T.users w.db) ≡ some u
          → Served (reset e p) w (reset_password E e p w)
      unfolding reset_password
      reset_found e p u full found =
          let (r, us, rs) =
            update_user_password_lem E.sqlite T laws u.id (hash_password E p) w.db in
          rw (full, get_user_by_email_lem E.sqlite T laws e w.db, found, r)
            (record {
              reply = ground arith;
              accounts = λ e'.
                  rw
                    (
                      full,
                      found,
                      us,
                      account-set_password (T.users w.db) (c_str e) e' _ u keyed.ids found,
                      c_str-hex,
                    )
                    refl;
              keyed = rw us (set_password-IsKeyed u.id _ (T.users w.db) keyed);
              rows = rs;
              disk = refl;
              now = refl;
            })

      reset-Served : (e p : Text) → Served (reset e p) w (reset_password E e p w)
      reset-Served e p = elim (Bool-cases (is_empty e || is_empty p)) [
        | inl b ↦ rw (reset_blank e p b) (unchanged (reset e p) (λ e'. ground arith))
        | inr full ↦ elim (Option-cases (find (has_email (c_str e)) (T.users w.db))) [
          | inl absent ↦ rw (reset_idle e p absent) (unchanged (reset e p) (λ e'. ground arith))
          | inr (u, found) ↦ reset_found e p u full found
        ]
      ]

      -- On a table whose identities and addresses are distinct, and at a time that does not read
      -- as a number, every request replies and changes the accounts as the specification says,
      -- keeps identities and addresses distinct, and touches neither the history nor the disk.
      pub perform-Served :
          (r : Request) → T.reads_as_number (c_str w.now) ≡ false → Served r w (perform r w)
      perform-Served (sign_up e p) plain = sign_up-Served e p plain
      perform-Served (sign_in e p) plain = sign_in-Served e p
      perform-Served (reset e p) plain = reset-Served e p

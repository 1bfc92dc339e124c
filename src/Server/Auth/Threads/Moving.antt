-- ===== src/Server/Auth/Threads/Moving.antt =====
-- One step of a thread of the requests on accounts.
use raspi_cctv_tcp_server.Prelude.{
  ℕ, ◌+◌, ◌-◌, ◌≤◌, Option, none, some, Option-cases, false, Text, ℤ, ◌≡◌, refl, ◌∙◌, arith, find,
  c_str, text_eq, Bool-cases, inl, inr,
}
use raspi_cctv_tcp_server.Exec.{ok}
use raspi_cctv_tcp_server.Db.Model.{User}
use raspi_cctv_tcp_server.Db.Users.{create_user, update_user_password}
use raspi_cctv_tcp_server.Db.Contract.{Tables, UserStatements, has_email}
use raspi_cctv_tcp_server.Db.Users.Lookup.{
  get_user_by_email_lem, create_user_new, create_user_taken, update_user_password_lem, stored,
}
use raspi_cctv_tcp_server.Db.Users.Table.{IsKeyed, append-IsKeyed, set_password-IsKeyed}
use raspi_cctv_tcp_server.Server.Env.{Env, World}
use raspi_cctv_tcp_server.Server.Response.{error, success}
use raspi_cctv_tcp_server.Server.Auth.{hash_password, new_user}
use raspi_cctv_tcp_server.Server.Auth.Accounts.{Request, sign_up, sign_in, reset, blank}
use raspi_cctv_tcp_server.Server.Auth.Threads.{
  Thread, starts, creates, updates, replies, email_of, after_lookup, advance,
}
use raspi_cctv_tcp_server.Server.Auth.Threads.Counting.{
  held, registered, held-append, held-set_password,
}

-- How many calls a thread has still to make, at most.
abbrev pub stage : Thread → ℕ
stage (starts r) = 2
stage (creates e p) = 1
stage (updates e p id) = 1
stage (replies r x) = 0

module _ (E : Env) (T : Tables E.sqlite) (laws : UserStatements E.sqlite T) where
  open T use {users}

  -- A step keeps the table's keys, and adds a row for an address exactly when it replies to a
  -- registration of it with success.
  pub record Moved (t : Thread) (w : World E) (t' : Thread) (w' : World E) : Type 0 where
    pub keyed : IsKeyed (users w'.db)
    pub now : w'.now ≡ w.now
    pub rows :
        (e : Text) → held e (users w'.db) + registered e t ≡ held e (users w.db) + registered e t'
    pub nearer : stage t' ≤ stage t - 1

  abbrev pub Moves : Thread → World E → Type 0
  Moves t w = (t' : Thread) × (w' : World E) × (advance E t w ≡ (ok t', w')) × Moved t w t' w'

  module _ (w : World E) (keyed : IsKeyed (users w.db)) where
    -- A step that leaves the state alone.
    stays :
        (t t' : Thread)
        → advance E t w ≡ (ok t', w)
        → ((e : Text) → registered e t' ≡ registered e t)
        → stage t' ≤ stage t - 1
        → Moves t w
    stays t t' h same near = (
      t',
      w,
      h,
      record { keyed = keyed; now = refl; rows = λ e. omega (arith, same e); nearer = near },
    )

    looked_up :
        (r : Request)
        → blank E r ≡ false
        → advance E (starts r) w
          ≡ after_lookup E r (find (has_email (c_str (email_of r))) (users w.db)) w
    unfolding advance
    looked_up r full =
        rw (full, get_user_by_email_lem E.sqlite T laws (email_of r) w.db, advance) refl

    at_lookup :
        (r : Request) (found : Option User)
        → advance E (starts r) w ≡ after_lookup E r found w
        → Moves (starts r) w
    at_lookup (sign_up e p) none h =
        stays (starts (sign_up e p)) (creates e p) h (λ e'. refl) (omega arith)
    at_lookup (sign_up e p) (some u) h =
        stays (starts (sign_up e p)) (replies (sign_up e p) (error 409 "Email already exists")) h
          (λ e'. refl) (omega arith)
    at_lookup (sign_in e p) none h =
        stays (starts (sign_in e p)) (replies (sign_in e p) (error 404 "User not found")) h
          (λ e'. refl) (omega arith)
    at_lookup (sign_in e p) (some u) h =
        elim (Bool-cases (text_eq u.password_hash (hash_password E p))) [
          | inl right ↦
              stays (starts (sign_in e p)) (replies (sign_in e p) (success 200 "Login successful"))
                (h ∙ rw right refl) (λ e'. refl) (omega arith)
          | inr wrong ↦
              stays (starts (sign_in e p))
                (replies (sign_in e p) (error 401 "Invalid email or password")) (h ∙ rw wrong refl)
                (λ e'. refl) (omega arith)
        ]
    at_lookup (reset e p) none h =
        stays (starts (reset e p)) (replies (reset e p) (error 404 "User not found")) h (λ e'. refl)
          (omega arith)
    at_lookup (reset e p) (some u) h =
        stays (starts (reset e p)) (updates e p u.id) h (λ e'. refl) (omega arith)

    starts-Moves : (r : Request) → Moves (starts r) w
    unfolding advance
    starts-Moves r = elim (Bool-cases (blank E r)) [
      | inl bad ↦
          stays (starts r) (replies r (error 400 "Email or password is missing"))
            (rw (bad, advance) refl) (λ e'. refl) (omega arith)
      | inr full ↦ at_lookup r _ (looked_up r full)
    ]

    creates-Moves : (e p : Text) → T.reads_as_number (c_str w.now) ≡ false → Moves (creates e p) w
    unfolding advance
    creates-Moves e p plain =
        let user = new_user e (hash_password E p) w.now in
        elim (Option-cases (find (has_email (c_str e)) (users w.db))) [
          | inr (v, taken) ↦
              stays (creates e p) (replies (sign_up e p) (error 500 "Failed to create user"))
                (rw (create_user_taken E.sqlite T laws user v w.db taken, advance) refl)
                (λ e'. refl) (omega arith)
          | inl absent ↦
              let o = create_user E.sqlite user w.db in
              let (done, us, rs) = create_user_new E.sqlite T laws user w.db absent plain in
              (
                replies (sign_up e p) (success 200 "User registered successfully"),
                record w { db = o.1 },
                rw (done, advance) refl,
                record {
                  keyed =
                      rw us (append-IsKeyed (users w.db) _ keyed (laws.next_id_fresh w.db) absent);
                  now = refl;
                  rows = λ e'. rw us (
                      omega
                        (arith, held-append e' (users w.db) (stored E.sqlite T laws w.db user)));
                  nearer = omega arith;
                },
              )
        ]

    updates-Moves : (e p : Text) (id : ℤ) → Moves (updates e p id) w
    unfolding advance
    updates-Moves e p id =
        let o = update_user_password E.sqlite id (hash_password E p) w.db in
        let (done, us, rs) = update_user_password_lem E.sqlite T laws id (hash_password E p) w.db in
        (
          replies (reset e p) (success 200 "Password reset successful"),
          record w { db = o.1 },
          rw (done, advance) refl,
          record {
            keyed = rw us (set_password-IsKeyed id _ (users w.db) keyed);
            now = refl;
            rows = λ e'.
                rw us
                  (omega (arith, held-set_password e' id (c_str (hash_password E p)) (users w.db)));
            nearer = omega arith;
          },
        )

    pub advance-Moves : (t : Thread) → T.reads_as_number (c_str w.now) ≡ false → Moves t w
    unfolding advance
    advance-Moves (starts r) plain = starts-Moves r
    advance-Moves (creates e p) plain = creates-Moves e p plain
    advance-Moves (updates e p id) plain = updates-Moves e p id
    advance-Moves (replies r x) plain =
        stays (replies r x) (replies r x) refl (λ e'. refl) (omega arith)

    -- Under SQLite's contract, on a table of distinct identities and addresses, and at a time that
    -- does not read as a
    -- number: whatever other threads have done to the table, a thread's next step does not fault,
    -- keeps identities and addresses distinct, and brings a thread that has not replied nearer to
    -- its reply, which it gives after two steps at most.
    pub advance-Nears :
        (t : Thread)
        → T.reads_as_number (c_str w.now) ≡ false
        → (t' : Thread) × (w' : World E) × (advance E t w ≡ (ok t', w'))
          × (stage t' ≤ stage t - 1)
          × IsKeyed (users w'.db)
    advance-Nears t plain =
        let (t', w', h, m) = advance-Moves t plain in (t', w', h, m.nearer, m.keyed)

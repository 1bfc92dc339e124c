-- ===== src/Db/Users/Lookup.antt =====
-- What each method of `UserRepository` does to the table of users, under SQLite's contract.
use raspi_cctv_tcp_server.Prelude.{
  Option, none, some, Bool, true, false, List, [], ◌∷◌, ◌++◌, map, Text, ℤ, ◌≡◌, refl, arith, find,
  filter, c_str,
}
use raspi_cctv_tcp_server.Exec.{Result, ok}
use raspi_cctv_tcp_server.Db.Sqlite.{Sqlite}
use raspi_cctv_tcp_server.Db.Model.{User}
use raspi_cctv_tcp_server.Db.Users.{
  create_user, first_user, get_user_by_email, get_user_by_id, update_user_password,
}
use raspi_cctv_tcp_server.Db.Contract.{
  Tables, UserStatements, Yields, ShowsUser, KeepsRows, has_email, has_id, set_password,
}

abbrev pub first {ℓ} : {A : Type ℓ} → List A → Option A
first [] = none
first (x ∷ xs) = some x

first-filter {ℓ} : {A : Type ℓ} (p : A → Bool) (xs : List A) → first (filter p xs) ≡ find p xs
first-filter p [] = refl
first-filter p (x ∷ xs) = ground (arith, first-filter p xs)

module _ {D : Type 0} (S : Sqlite D) where
  first_user_lem :
      (db : S.Connection) (stmt : S.Stmt) (us : List User)
      → Yields S (ShowsUser S) db stmt us
      → first_user S (S.step db stmt) ≡ (ok (first us), db)
  unfolding first_user
  first_user_lem db stmt [] (stmt', e) = rw e refl
  first_user_lem db stmt (u ∷ us) (stmt', e, (i, m, h, c), _) = rw (e, i, m, h, c) refl

module _ {D : Type 0} (S : Sqlite D) (T : Tables S) (laws : UserStatements S T) where
  -- The first user with that address, up to its first zero byte; the connection is not changed.
  pub get_user_by_email_lem :
      (email : Text) (db : S.Connection)
      → get_user_by_email S email db ≡ (ok (find (has_email (c_str email)) (T.users db)), db)
  unfolding get_user_by_email
  get_user_by_email_lem email db =
      let (stmt, p, y) = laws.select_by_email db (c_str email) in
      rw (p, get_user_by_email, first_user_lem S db _ _ y, first-filter) refl

  pub get_user_by_id_lem :
      (id : ℤ) (db : S.Connection)
      → get_user_by_id S id db ≡ (ok (find (has_id id) (T.users db)), db)
  unfolding get_user_by_id
  get_user_by_id_lem id db =
      let (stmt, p, y) = laws.select_by_id db id in
      rw (p, get_user_by_id, first_user_lem S db _ _ y, first-filter) refl

  abbrev pub stored : S.Connection → User → User
  stored db u = record {
    id = laws.next_id db;
    email = c_str u.email;
    password_hash = c_str u.password_hash;
    created_at = c_str u.created_at;
  }

  -- The state that a method leaves: the new table of users, and the history as it was.
  abbrev pub Leaves : S.Connection → Bool → List User → Result Bool × S.Connection → Type 0
  Leaves db b us o = (o.0 ≡ ok b) × (T.users o.1 ≡ us) × KeepsRows S T db o.1

  pub create_user_new :
      (u : User) (db : S.Connection)
      → find (has_email (c_str u.email)) (T.users db) ≡ none
      → T.reads_as_number (c_str u.created_at) ≡ false
      → Leaves db true (T.users db ++ stored db u ∷ []) (create_user S u db)
  unfolding create_user
  create_user_new u db absent plain =
      let (stmt, p, (stmt', db', e, (us, rs))) =
        laws.insert db (c_str u.email) (c_str u.password_hash) (c_str u.created_at) absent plain in
      rw (p, create_user, e) (refl, us, rs)

  pub create_user_taken :
      (u v : User) (db : S.Connection)
      → find (has_email (c_str u.email)) (T.users db) ≡ some v
      → create_user S u db ≡ (ok false, db)
  unfolding create_user
  create_user_taken u v db taken =
      let (stmt, p, stmt', e) =
        laws.insert_taken db (c_str u.email) (c_str u.password_hash) (c_str u.created_at) v taken in
      rw (p, create_user, e) refl

  pub update_user_password_lem :
      (id : ℤ) (hash : Text) (db : S.Connection)
      → Leaves db true
          (map (set_password id (c_str hash)) (T.users db))
          (update_user_password S id hash db)
  unfolding update_user_password
  update_user_password_lem id hash db =
      let (stmt, p, (stmt', db', e, (us, rs))) = laws.update db id (c_str hash) in
      rw (p, update_user_password, e) (refl, us, rs)

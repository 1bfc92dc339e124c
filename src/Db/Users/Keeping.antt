-- ===== src/Db/Users/Keeping.antt =====
-- What the methods on accounts leave of the tables, whatever SQLite's calls return.
use raspi_cctv_tcp_server.Prelude.{
  Option-cases, [], ◌∷◌, ◌++◌, map, Text, ℤ, c_str, ◌≡◌, ◌⊎◌, inl, inr, refl,
}
use raspi_cctv_tcp_server.Db.Model.{User}
use raspi_cctv_tcp_server.Db.Sqlite.{Sqlite, StepCode, row, done, failed}
use raspi_cctv_tcp_server.Db.Contract.{Tables, KeepsRows, KeepsUsers, set_password}
use raspi_cctv_tcp_server.Db.Contract.Outcomes.{Outcomes, IsNew, user_by_email}
use raspi_cctv_tcp_server.Db.Users.Table.{IsKeyed, append-IsKeyed, set_password-IsKeyed}
use raspi_cctv_tcp_server.Db.Users.{
  insert_user_sql, select_by_email_sql, update_password_sql, first_user, create_user,
  get_user_by_email, update_user_password,
}

module _ {D : Type 0} (S : Sqlite D) (T : Tables S) (outcomes : Outcomes S T) where
  open T use {users, rows}

  first_user-db : (o : StepCode × S.Stmt × S.Connection) → (first_user S o).1 ≡ o.2
  unfolding first_user
  first_user-db (row, stmt, db) = refl
  first_user-db (done, stmt, db) = refl
  first_user-db (failed, stmt, db) = refl

  abbrev pub SameTables : S.Connection → S.Connection → Type 0
  SameTables db db' = KeepsUsers S T db db' × KeepsRows S T db db'

  pub get_user_by_email-SameTables :
      (email : Text) (db : S.Connection) → SameTables db (get_user_by_email S email db).1
  unfolding get_user_by_email
  get_user_by_email-SameTables email db = elim (Option-cases (S.prepare db select_by_email_sql)) [
    | inl e ↦ rw (e, get_user_by_email) (refl, refl)
    | inr (stmt, e) ↦
        let bound = S.bind_text 1 (c_str email) stmt in
        let reads =
          outcomes.bind_text-Reads 1 (c_str email) stmt
            (outcomes.prepare-Reads user_by_email db stmt e) in
        let (_, us, rs) = outcomes.step-Reads db (S.step db bound).2 bound _ _ reads refl in
        rw (e, get_user_by_email, first_user-db (S.step db bound)) (us, rs)
  ]

  -- Keys and addresses stay distinct, and the history is not touched.
  abbrev pub KeyedStep : S.Connection → S.Connection → Type 0
  KeyedStep db db' = (IsKeyed (users db) → IsKeyed (users db')) × KeepsRows S T db db'

  pub create_user-KeyedStep : (u : User) (db : S.Connection) → KeyedStep db (create_user S u db).1
  unfolding create_user
  create_user-KeyedStep u db = elim (Option-cases (S.prepare db insert_user_sql)) [
    | inl e ↦ rw (e, create_user) (λ k. k, refl)
    | inr (stmt, e) ↦
        let (us, rs) =
          outcomes.step-insert_user db _ stmt _ _ (c_str u.email) (c_str u.password_hash)
            (c_str u.created_at) e refl in
        rw (e, create_user) (added _ us, rs)
  ]
    where
      added :
          (db' : S.Connection)
          → (KeepsUsers S T db db'
              ⊎ ((v : User) × IsNew S T (users db) (c_str u.email) v
                  × (users db' ≡ users db ++ v ∷ [])))
          → IsKeyed (users db)
          → IsKeyed (users db')
      added db' (inl same) k = rw same k
      added db' (inr (v, (i, m, _), more)) k = rw more (append-IsKeyed (users db) v k i m)

  pub update_user_password-KeyedStep :
      (id : ℤ) (hash : Text) (db : S.Connection)
      → KeyedStep db (update_user_password S id hash db).1
  unfolding update_user_password
  update_user_password-KeyedStep id hash db =
      elim (Option-cases (S.prepare db update_password_sql)) [
        | inl e ↦ rw (e, update_user_password) (λ k. k, refl)
        | inr (stmt, e) ↦
            let (us, rs) = outcomes.step-update_password db _ stmt _ _ id (c_str hash) e refl in
            rw (e, update_user_password) (changed _ us, rs)
      ]
    where
      changed :
          (db' : S.Connection)
          → (KeepsUsers S T db db' ⊎ (users db' ≡ map (set_password id (c_str hash)) (users db)))
          → IsKeyed (users db)
          → IsKeyed (users db')
      changed db' (inl same) k = rw same k
      changed db' (inr set) k = rw set (set_password-IsKeyed id (c_str hash) (users db) k)

-- ===== src/Db/Users/Faults.antt =====
-- How the methods on accounts end: in a value, or in a fault of a kind.
use raspi_cctv_tcp_server.Prelude.{Option, none, some, Option-cases, Text, ℤ, inl, inr}
use raspi_cctv_tcp_server.Exec.{Fault}
use raspi_cctv_tcp_server.Exec.Fuel.{Fuelled, AlwaysEndsIn, IsReal}
use raspi_cctv_tcp_server.Db.Model.{User}
use raspi_cctv_tcp_server.Db.Sqlite.{Sqlite, StepCode, row, done, failed}
use raspi_cctv_tcp_server.Db.Users.{
  insert_user_sql, select_by_email_sql, update_password_sql, user_of, present, read_user,
  first_user, create_user, get_user_by_email, update_user_password,
}

user_of-Fuelled : (id : ℤ) (e h c : Option Text) → Fuelled (present (user_of id e h c))
user_of-Fuelled id (some e) (some h) (some c) = tt
user_of-Fuelled id none h c = tt
user_of-Fuelled id (some e) none c = tt
user_of-Fuelled id (some e) (some h) none = tt

module _ {D : Type 0} (S : Sqlite D) where
  first_user-Fuelled : (o : StepCode × S.Stmt × S.Connection) → Fuelled (first_user S o).0
  unfolding first_user read_user
  first_user-Fuelled (row, stmt, db) =
      user_of-Fuelled (S.column_int stmt 0) (S.column_text stmt 1) (S.column_text stmt 2)
        (S.column_text stmt 3)
  first_user-Fuelled (done, stmt, db) = tt
  first_user-Fuelled (failed, stmt, db) = tt

  pub get_user_by_email-KeepsFuel : (email : Text) → AlwaysEndsIn IsReal (get_user_by_email S email)
  unfolding get_user_by_email
  get_user_by_email-KeepsFuel email db = elim (Option-cases (S.prepare db select_by_email_sql)) [
    | inl e ↦ rw (e, get_user_by_email) tt
    | inr (stmt, e) ↦ rw (e, get_user_by_email) (first_user-Fuelled _)
  ]

  pub create_user-EndsIn : (Q : Fault → Type 0) (user : User) → AlwaysEndsIn Q (create_user S user)
  unfolding create_user
  create_user-EndsIn Q user db = elim (Option-cases (S.prepare db insert_user_sql)) [
    | inl e ↦ rw (e, create_user) tt
    | inr (stmt, e) ↦ rw (e, create_user) tt
  ]

  pub update_user_password-EndsIn :
      (Q : Fault → Type 0) (id : ℤ) (hash : Text) → AlwaysEndsIn Q (update_user_password S id hash)
  unfolding update_user_password
  update_user_password-EndsIn Q id hash db =
      elim (Option-cases (S.prepare db update_password_sql)) [
        | inl e ↦ rw (e, update_user_password) tt
        | inr (stmt, e) ↦ rw (e, update_user_password) tt
      ]

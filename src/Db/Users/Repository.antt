-- ===== src/Db/Users/Repository.antt =====
-- include/db/repository/UserRepository.hpp: what the handlers ask of the table of users, and that
-- src/db/UserRepository.cpp provides it.
use raspi_cctv_tcp_server.Prelude.{
  Option, none, some, Bool, true, false, not, [], ◌∷◌, ◌++◌, map, Text, ℤ, ◌≡◌, refl, find, filter,
  c_str, is_none,
}
use raspi_cctv_tcp_server.Exec.{Exec, Result, ok}
use raspi_cctv_tcp_server.Db.Model.{User}
use raspi_cctv_tcp_server.Db.Sqlite.{Sqlite}
use raspi_cctv_tcp_server.Db.Contract.{Tables, UserStatements, has_email, has_id, set_password}
use raspi_cctv_tcp_server.Db.Users
use raspi_cctv_tcp_server.Db.Users.Lookup.{
  Leaves, stored, get_user_by_email_lem, get_user_by_id_lem, create_user_new, create_user_taken,
  update_user_password_lem,
}
use raspi_cctv_tcp_server.Db.Users.Removal.{delete_user_lem}

pub record UserRepository (Db : Type 0) : Type 0 where
  pub create_user : User → Exec Db Bool
  pub get_user_by_email : Text → Exec Db (Option User)
  pub get_user_by_id : ℤ → Exec Db (Option User)
  pub update_user_password : ℤ → Text → Exec Db Bool
  pub delete_user : ℤ → Exec Db Bool

-- The class over a connection.
abbrev pub user_repository : {D : Type 0} (S : Sqlite D) → UserRepository S.Connection
user_repository S = record {
  create_user = Users.create_user S;
  get_user_by_email = Users.get_user_by_email S;
  get_user_by_id = Users.get_user_by_id S;
  update_user_password = Users.update_user_password S;
  delete_user = Users.delete_user S;
}

module _ {D : Type 0} (S : Sqlite D) (T : Tables S) (laws : UserStatements S T) where
  -- A taken address is refused and nothing changes; otherwise there is one user more, with a new key.
  abbrev pub Created : User → S.Connection → Option User → Result Bool × S.Connection → Type 0
  Created u db (some v) o = o ≡ (ok false, db)
  Created u db none o = Leaves S T laws db true (T.users db ++ stored S T laws db u ∷ []) o

  created :
      (u : User) (db : S.Connection) (o : Option User)
      → find (has_email (c_str u.email)) (T.users db) ≡ o
      → T.reads_as_number (c_str u.created_at) ≡ false
      → Created u db o (Users.create_user S u db)
  created u db none e plain = create_user_new S T laws u db e plain
  created u db (some v) e plain = create_user_taken S T laws u v db e

  -- Under SQLite's contract, and for a creation time that does not read as a number, the class
  -- keeps a list of users: the two lookups find the first user with the address or the key and
  -- change nothing; a creation is refused when the address is taken and adds the user with a new
  -- key otherwise; an update sets the hash of the users with the key; a deletion removes them and
  -- tells whether there was one. The history is never touched.
  pub user_repository_lem :
      (u : User) (email : Text) (id : ℤ) (hash : Text) (db : S.Connection)
      → T.reads_as_number (c_str u.created_at) ≡ false
      → let R = user_repository S in
        (R.get_user_by_email email db ≡ (ok (find (has_email (c_str email)) (T.users db)), db))
        × (R.get_user_by_id id db ≡ (ok (find (has_id id) (T.users db)), db))
        × Created u db (find (has_email (c_str u.email)) (T.users db)) (R.create_user u db)
        × Leaves S T laws db true
            (map (set_password id (c_str hash)) (T.users db))
            (R.update_user_password id hash db)
        × Leaves S T laws db
            (not (is_none (find (has_id id) (T.users db))))
            (filter (λ v. not (has_id id v)) (T.users db))
            (R.delete_user id db)
  user_repository_lem u email id hash db plain = (
    get_user_by_email_lem S T laws email db,
    get_user_by_id_lem S T laws id db,
    created u db _ refl plain,
    update_user_password_lem S T laws id hash db,
    delete_user_lem S T laws id db,
  )

-- ===== src/Db/Users/Removal.antt =====
-- Deleting a user.
use raspi_cctv_tcp_server.Prelude.{
  ◌-◌, Bool, true, false, not, List, ℤ, ◌≡◌, refl, ap, arith, length, find, filter, filter-not-none,
  filter-not-some, is_none, ◌==◌, if◌then◌else◌, Option-cases, inl, inr,
}
use raspi_cctv_tcp_server.Exec.{ok}
use raspi_cctv_tcp_server.Db.Sqlite.{Sqlite}
use raspi_cctv_tcp_server.Db.Contract.{Tables, UserStatements, has_id}
use raspi_cctv_tcp_server.Db.Users.{delete_user}

module _ {D : Type 0} (S : Sqlite D) (T : Tables S) (laws : UserStatements S T) where
  changed :
      {A : Type 0} (p : A → Bool) (xs : List A)
      → (if length xs - length (filter (λ x. not (p x)) xs) == 0 then false else true)
        ≡ not (is_none (find p xs))
  changed p xs = elim (Option-cases (find p xs)) [
    | inl absent ↦ rw absent (ground (arith, filter-not-none p xs absent))
    | inr (a, found) ↦ rw found (ground (arith, filter-not-some p xs a found))
  ]

  -- Deleting by identity leaves all users with another identity, in their order, and all rows; it
  -- returns true exactly when there was such a user.
  pub delete_user_lem :
      (id : ℤ) (db : S.Connection)
      → let o = delete_user S id db in
        (o.0 ≡ ok (not (is_none (find (has_id id) (T.users db)))))
        × (T.users o.1 ≡ filter (λ u. not (has_id id u)) (T.users db))
        × (T.rows o.1 ≡ T.rows db)
  delete_user_lem id db =
      let (stmt, p, (stmt', db', e, (us, n, rs))) = laws.delete db id in
      unfold delete_user in
      rw (p, delete_user, e, n, us) (ap ok (changed (has_id id) (T.users db)), refl, rs)

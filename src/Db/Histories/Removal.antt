-- ===== src/Db/Histories/Removal.antt =====
-- Deleting a row of the history.
use raspi_cctv_tcp_server.Prelude.{
  ◌-◌, Bool, not, List, ℤ, ◌≡◌, refl, ap, arith, length, find, filter, filter-not-none,
  filter-not-some, is_none, ltb, eq_ℤ, Option-cases, inl, inr,
}
use raspi_cctv_tcp_server.Exec.{ok}
use raspi_cctv_tcp_server.Floats.{Floats}
use raspi_cctv_tcp_server.Db.Sqlite.{Sqlite}
use raspi_cctv_tcp_server.Db.Contract.{Row, Tables, HistoryStatements}
use raspi_cctv_tcp_server.Db.Histories.{delete_history}

fewer :
    {A : Type 0} (p : A → Bool) (xs : List A)
    → ltb 0 (length xs - length (filter (λ x. not (p x)) xs)) ≡ not (is_none (find p xs))
fewer p xs = elim (Option-cases (find p xs)) [
  | inl absent ↦ rw absent (ground (arith, filter-not-none p xs absent))
  | inr (a, found) ↦ rw found (ground (arith, filter-not-some p xs a found))
]

module _ (F : Floats) (S : Sqlite F.Double) (T : Tables S) (laws : HistoryStatements S T) where
  abbrev pub row_has : ℤ → Row F.Double → Bool
  row_has id r = eq_ℤ r.id id

  -- Deleting by identity leaves all rows with another identity, in their order, and all users; it
  -- returns true exactly when there was such a row.
  pub delete_history_lem :
      (id : ℤ) (db : S.Connection)
      → let o = delete_history F S id db in
        (o.0 ≡ ok (not (is_none (find (row_has id) (T.rows db)))))
        × (T.rows o.1 ≡ filter (λ r. not (row_has id r)) (T.rows db))
        × (T.users o.1 ≡ T.users db)
  delete_history_lem id db =
      let (stmt, p, (stmt', db', e, (rs, n, us))) = laws.delete db id in
      unfold delete_history in
      rw (p, delete_history, e, n, rs) (ap ok (fewer (row_has id) (T.rows db)), refl, us)

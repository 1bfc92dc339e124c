-- ===== src/Db/Memory/Columns.antt =====
-- The rows of the database in memory hold the columns that are always written.
use raspi_cctv_tcp_server.Prelude.{
  ◌⊎◌, inl, inr, ℕ, ◌≤◌, some, List, [], ◌∷◌, Text, ◌≡◌, refl, arith, subst,
}
use raspi_cctv_tcp_server.Db.Sqlite.{row, done, failed}
use raspi_cctv_tcp_server.Db.Model.{User}
use raspi_cctv_tcp_server.Db.Contract.{Row}
use raspi_cctv_tcp_server.Db.Contract.Columns.{Columns}
use raspi_cctv_tcp_server.Db.Memory.{
  Kind, insert_user, by_email, by_id, update_password, delete_user, insert_history, all, by_type,
  by_dates, by_type_and_dates, delete_history, Store, Cursor, fresh, at_users, at_rows, Statement,
  Stepped, give_users, give_rows, run, step_at, text_at, memory, tables,
}
use raspi_cctv_tcp_server.Db.Memory.Outcomes.{ReadsOnly, Reads-ReadsOnly, memory-Outcomes}

abbrev TextIfRow : ℕ → Stepped → Type 0
TextIfRow i (row, s, db) = (t : Text) × (text_at s.cursor i ≡ some t)
TextIfRow i (done, s, db) = Unit
TextIfRow i (failed, s, db) = Unit

one_to_three : (i : ℕ) → 1 ≤ i → i ≤ 3 → (i ≡ 1) ⊎ (i ≡ 2) ⊎ (i ≡ 3)
one_to_three i low high = ground arith

module _ (i : ℕ) (low : 1 ≤ i) (high : i ≤ 3) where
  user_text : (u : User) (us : List User) → (t : Text) × (text_at (at_users (u ∷ us)) i ≡ some t)
  user_text u us = elim (one_to_three i low high) [
    | inl e ↦ rw e (u.email, refl)
    | inr (inl e) ↦ rw e (u.password_hash, refl)
    | inr (inr e) ↦ rw e (u.created_at, refl)
  ]

  row_text : (r : Row ℕ) (rs : List (Row ℕ)) → (t : Text) × (text_at (at_rows (r ∷ rs)) i ≡ some t)
  row_text r rs = elim (one_to_three i low high) [
    | inl e ↦ rw e (r.date, refl)
    | inr (inl e) ↦ rw e (r.image_path, refl)
    | inr (inr e) ↦ rw e (r.plate_number, refl)
  ]

  give_users-text : (db : Store) (s : Statement) (us : List User) → TextIfRow i (give_users db s us)
  give_users-text db s [] = tt
  give_users-text db s (u ∷ us) = user_text u us

  give_rows-text :
      (db : Store) (s : Statement) (rs : List (Row ℕ)) → TextIfRow i (give_rows db s rs)
  give_rows-text db s [] = tt
  give_rows-text db s (r ∷ rs) = row_text r rs

  run-text : (db : Store) (s : Statement) (k : Kind) → ReadsOnly k → TextIfRow i (run db s k)
  run-text db s by_email k = give_users-text db s _
  run-text db s by_id k = give_users-text db s _
  run-text db s all k = give_rows-text db s _
  run-text db s by_type k = give_rows-text db s _
  run-text db s by_dates k = give_rows-text db s _
  run-text db s by_type_and_dates k = give_rows-text db s _
  run-text db s insert_user k = elim k [ ]
  run-text db s update_password k = elim k [ ]
  run-text db s delete_user k = elim k [ ]
  run-text db s insert_history k = elim k [ ]
  run-text db s delete_history k = elim k [ ]

  step-text :
      (db : Store) (s : Statement) (c : Cursor) → ReadsOnly s.kind → TextIfRow i (step_at db s c)
  step-text db s fresh k = run-text db s s.kind k
  step-text db s (at_users []) k = tt
  step-text db s (at_users (u ∷ us)) k = give_users-text db s us
  step-text db s (at_rows []) k = tt
  step-text db s (at_rows (r ∷ rs)) k = give_rows-text db s rs

pub memory-Columns : Columns memory tables memory-Outcomes
memory-Columns = record {
  column_text-some = λ db db' s s' i reads e low high.
      subst (λ (x : Stepped). TextIfRow i x) e
        (step-text i low high db s s.cursor (Reads-ReadsOnly s reads));
}

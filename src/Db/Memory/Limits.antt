-- ===== src/Db/Memory/Limits.antt =====
-- The database in memory gives no more rows than a LIMIT asks for.
use raspi_cctv_tcp_server.Prelude.{
  ℕ, suc, ◌≤◌, ◌<◌, Bool, true, ◌&&◌, List, [], ◌∷◌, ℤ, some, pos, to_nat, ◌≡◌, arith, subst,
  length, length-take_le, take, drop, filter, eq_ℤ,
}
use raspi_cctv_tcp_server.Db.Sqlite.{row}
use raspi_cctv_tcp_server.Db.Model.{User}
use raspi_cctv_tcp_server.Db.Contract.{Row, has_email, has_id}
use raspi_cctv_tcp_server.Db.Contract.Limits.{RowLimits}
use raspi_cctv_tcp_server.Db.Memory.{
  Kind, insert_user, by_email, by_id, update_password, delete_user, insert_history, all, by_type,
  by_dates, by_type_and_dates, delete_history, Store, Cursor, fresh, at_users, at_rows, Statement,
  give_users, give_rows, run, step_at, in_dates, memory,
}
use raspi_cctv_tcp_server.Db.Memory.Order.{newest_first}

abbrev page_of : Store → (Row ℕ → Bool) → ℤ → ℤ → List (Row ℕ)
page_of db p limit offset =
    take (to_nat limit) (drop (to_nat offset) (newest_first (filter p db.rows)))

-- The rows that a statement which has not been stepped will give.
abbrev to_come : Store → Statement → Kind → ℕ
to_come db s by_email = length (filter (has_email (s.texts 1)) db.users)
to_come db s by_id = length (filter (has_id (s.ints 1)) db.users)
to_come db s all = length (page_of db (λ _. true) (s.ints 1) (s.ints 2))
to_come db s by_type = length (page_of db (λ r. eq_ℤ r.event_type (s.ints 1)) (s.ints 2) (s.ints 3))
to_come db s by_dates = length (page_of db (in_dates (s.texts 1) (s.texts 2)) (s.ints 3) (s.ints 4))
to_come db s by_type_and_dates = length (
    page_of db (λ r. eq_ℤ r.event_type (s.ints 1) && in_dates (s.texts 2) (s.texts 3) r) (s.ints 4)
      (s.ints 5))
to_come db s _ = 0

abbrev left_at : Store → Statement → Cursor → ℕ
left_at db s fresh = to_come db s s.kind
left_at db s (at_users []) = 0
left_at db s (at_users (u ∷ us)) = length us
left_at db s (at_rows []) = 0
left_at db s (at_rows (r ∷ rs)) = length rs

abbrev left : Store → Statement → ℕ
left db s = left_at db s s.cursor

give_users-less :
    (db db' : Store) (s s' : Statement) (us : List User)
    → give_users db s us ≡ (row, s', db')
    → left db' s' < length us
give_users-less db db' s s' [] h = cc
give_users-less db db' s s' (u ∷ us) h = subst (λ x. left x.2 x.1 < suc (length us)) h (omega arith)

give_rows-less :
    (db db' : Store) (s s' : Statement) (rs : List (Row ℕ))
    → give_rows db s rs ≡ (row, s', db')
    → left db' s' < length rs
give_rows-less db db' s s' [] h = cc
give_rows-less db db' s s' (r ∷ rs) h = subst (λ x. left x.2 x.1 < suc (length rs)) h (omega arith)

run-less :
    (db db' : Store) (s s' : Statement) (k : Kind)
    → run db s k ≡ (row, s', db')
    → left db' s' < to_come db s k
run-less db db' s s' by_email h = give_users-less db db' s s' _ h
run-less db db' s s' by_id h = give_users-less db db' s s' _ h
run-less db db' s s' all h = give_rows-less db db' s s' _ h
run-less db db' s s' by_type h = give_rows-less db db' s s' _ h
run-less db db' s s' by_dates h = give_rows-less db db' s s' _ h
run-less db db' s s' by_type_and_dates h = give_rows-less db db' s s' _ h
run-less db db' s s' insert_user h = ground arith
run-less db db' s s' update_password h = cc
run-less db db' s s' delete_user h = cc
run-less db db' s s' insert_history h = cc
run-less db db' s s' delete_history h = cc

step-less :
    (db db' : Store) (s s' : Statement) (c : Cursor)
    → step_at db s c ≡ (row, s', db')
    → left db' s' < left_at db s c
step-less db db' s s' fresh h = run-less db db' s s' s.kind h
step-less db db' s s' (at_users []) h = cc
step-less db db' s s' (at_users (u ∷ us)) h = give_users-less db db' s s' us h
step-less db db' s s' (at_rows []) h = cc
step-less db db' s s' (at_rows (r ∷ rs)) h = give_rows-less db db' s s' rs h

same_statement : {s s' : Statement} → some s ≡ some s' → s ≡ s'
same_statement h = cc

pub memory-RowLimits : RowLimits memory
memory-RowLimits = record {
  remaining = left;
  step-row = λ db db' s s' h. step-less db db' s s' s.cursor h;
  select_all = λ db s limit offset h.
      subst
        (λ (x : Statement).
          left db (memory.bind_int 2 offset (memory.bind_int 1 (pos limit) (x))) ≤ limit)
        (same_statement h) (length-take_le limit _);
  select_by_type = λ db s t limit offset h.
      subst
        (λ (x : Statement).
          left db
            (memory.bind_int 3 offset (memory.bind_int 2 (pos limit) (memory.bind_int 1 t (x))))
          ≤ limit)
        (same_statement h) (length-take_le limit _);
  select_by_dates = λ db s a b limit offset h.
      subst
        (λ (x : Statement).
          left db (
            memory.bind_int 4 offset
              (memory.bind_int 3 (pos limit) (memory.bind_text 2 b (memory.bind_text 1 a (x)))))
          ≤ limit)
        (same_statement h) (length-take_le limit _);
  select_by_type_and_dates = λ db s t a b limit offset h.
      subst
        (λ (x : Statement).
          left db (
            memory.bind_int 5 offset (
              memory.bind_int 4 (pos limit)
                (memory.bind_text 3 b (memory.bind_text 2 a (memory.bind_int 1 t (x))))))
          ≤ limit)
        (same_statement h) (length-take_le limit _);
}

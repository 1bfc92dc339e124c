-- ===== src/Db/Memory/Outcomes.antt =====
-- A step of the database in memory does to the tables only what the contract allows.
use raspi_cctv_tcp_server.Prelude.{
  ℕ, suc, Option, none, some, List, [], ◌∷◌, ◌++◌, map, Text, ℤ, pos, ◌≡◌, ◌⊎◌, inl, inr, refl,
  arith, subst, find, Option-cases,
}
use raspi_cctv_tcp_server.Db.Model.{User}
use raspi_cctv_tcp_server.Db.Contract.{Row, has_email, set_password, bind_user, bind_row}
use raspi_cctv_tcp_server.Db.Contract.Outcomes.{
  Outcomes, IsNew, Query, query_sql, user_by_email, all_rows, rows_by_type, rows_by_dates,
  rows_by_type_and_dates,
}
use raspi_cctv_tcp_server.Db.Memory.Users.{above_all}
use raspi_cctv_tcp_server.Db.Memory.{
  Kind, insert_user, by_email, by_id, update_password, delete_user, insert_history, all, by_type,
  by_dates, by_type_and_dates, delete_history, Store, Cursor, fresh, at_users, at_rows, Statement,
  Stepped, give_users, give_rows, run, step_at, memory, tables, statement, largest_id,
}

abbrev pub ReadsOnly : Kind → Type 0
ReadsOnly by_email = Unit
ReadsOnly by_id = Unit
ReadsOnly all = Unit
ReadsOnly by_type = Unit
ReadsOnly by_dates = Unit
ReadsOnly by_type_and_dates = Unit
ReadsOnly _ = ⊥

-- A step that leaves the store as it was, and the statement of its kind.
abbrev Quiet : Store → Statement → Stepped → Type 0
Quiet db s o = ReadsOnly o.1.kind × (o.2.users ≡ db.users) × (o.2.rows ≡ db.rows)

give_users-Quiet :
    (db : Store) (s : Statement) (us : List User)
    → ReadsOnly s.kind
    → Quiet db s (give_users db s us)
give_users-Quiet db s [] k = (k, refl, refl)
give_users-Quiet db s (u ∷ us) k = (k, refl, refl)

give_rows-Quiet :
    (db : Store) (s : Statement) (rs : List (Row ℕ))
    → ReadsOnly s.kind
    → Quiet db s (give_rows db s rs)
give_rows-Quiet db s [] k = (k, refl, refl)
give_rows-Quiet db s (r ∷ rs) k = (k, refl, refl)

run-Quiet :
    (db : Store) (s : Statement) (k : Kind)
    → ReadsOnly k
    → ReadsOnly s.kind
    → Quiet db s (run db s k)
run-Quiet db s by_email k h = give_users-Quiet db s _ h
run-Quiet db s by_id k h = give_users-Quiet db s _ h
run-Quiet db s all k h = give_rows-Quiet db s _ h
run-Quiet db s by_type k h = give_rows-Quiet db s _ h
run-Quiet db s by_dates k h = give_rows-Quiet db s _ h
run-Quiet db s by_type_and_dates k h = give_rows-Quiet db s _ h
run-Quiet db s insert_user k h = elim k [ ]
run-Quiet db s update_password k h = elim k [ ]
run-Quiet db s delete_user k h = elim k [ ]
run-Quiet db s insert_history k h = elim k [ ]
run-Quiet db s delete_history k h = elim k [ ]

step-Quiet :
    (db : Store) (s : Statement) (c : Cursor) → ReadsOnly s.kind → Quiet db s (step_at db s c)
step-Quiet db s fresh k = run-Quiet db s s.kind k k
step-Quiet db s (at_users []) k = give_users-Quiet db s [] k
step-Quiet db s (at_users (u ∷ us)) k = give_users-Quiet db s us k
step-Quiet db s (at_rows []) k = give_rows-Quiet db s [] k
step-Quiet db s (at_rows (r ∷ rs)) k = give_rows-Quiet db s rs k

same_statement : {s s' : Statement} → some s ≡ some s' → s ≡ s'
same_statement h = cc

prepared_reads :
    (q : Query) (db : Store) (s : Statement)
    → memory.prepare db (query_sql q) ≡ some s
    → ReadsOnly s.kind
prepared_reads user_by_email db s h =
    subst (λ (x : Statement). ReadsOnly x.kind) (same_statement h) tt
prepared_reads all_rows db s h = subst (λ (x : Statement). ReadsOnly x.kind) (same_statement h) tt
prepared_reads rows_by_type db s h =
    subst (λ (x : Statement). ReadsOnly x.kind) (same_statement h) tt
prepared_reads rows_by_dates db s h =
    subst (λ (x : Statement). ReadsOnly x.kind) (same_statement h) tt
prepared_reads rows_by_type_and_dates db s h =
    subst (λ (x : Statement). ReadsOnly x.kind) (same_statement h) tt

-- What an insertion of a user leaves.
abbrev UserStep : Store → Text → Store → Type 0
UserStep db e db' =
    ((db'.users ≡ db.users)
      ⊎ ((u : User) × IsNew memory tables db.users e u × (db'.users ≡ db.users ++ u ∷ [])))
    × (db'.rows ≡ db.rows)

inserted :
    (db : Store) (e h c : Text)
    → UserStep db e (memory.step db (bind_user memory e h c (statement insert_user))).2
inserted db e h c = elim (Option-cases (find (has_email e) db.users)) [
  | inl absent ↦ rw absent (
    inr (
      record { id = pos (suc (largest_id db.users)); email = e; password_hash = h; created_at = c },
      (above_all db.users (suc (largest_id db.users)) (omega arith), absent, refl),
      refl,
    ),
    refl,
  )
  | inr (u, taken) ↦ rw taken (inl refl, refl)
]

abbrev RowStep : Store → ℤ → Option ℕ → Store → Type 0
RowStep db t v db' =
    ((db'.rows ≡ db.rows)
      ⊎ ((r : Row ℕ) × (r.event_type ≡ t) × (r.speed ≡ v) × (db'.rows ≡ db.rows ++ r ∷ [])))
    × (db'.users ≡ db.users)

added :
    (db : Store) (d i p : Text) (t : ℤ) (s e : Text) (v : Option ℕ)
    → RowStep db t v (memory.step db (bind_row memory d i p t s e v (statement insert_history))).2
added db d i p t s e none = (inr (_, refl, refl, refl), refl)
added db d i p t s e (some v) = (inr (_, refl, refl, refl), refl)

pub memory-Outcomes : Outcomes memory tables
memory-Outcomes = record {
  Reads = λ s. ReadsOnly s.kind;
  prepare-Reads = prepared_reads;
  bind_text-Reads = λ i t s h. h;
  bind_int-Reads = λ i n s h. h;
  step-Reads = λ db db' s s' code h e.
      let q = step-Quiet db s s.cursor h in subst (λ (x : Stepped). Quiet db s x) e q;
  step-insert_user = λ db db' s s' code e h c p q.
      subst (λ (x : Stepped). UserStep db e x.2) q
        (subst (λ (x : Statement). UserStep db e (memory.step db (bind_user memory e h c x)).2)
          (same_statement p) (inserted db e h c));
  step-update_password = λ db db' s s' code i h p q.
      subst
        (λ (x : Stepped).
          ((x.2.users ≡ db.users) ⊎ (x.2.users ≡ map (set_password i h) db.users))
          × (x.2.rows ≡ db.rows))
        q
        (subst
          (λ (x : Statement).
            (let o = memory.step db (memory.bind_int 2 i (memory.bind_text 1 h x)) in
              ((o.2.users ≡ db.users) ⊎ (o.2.users ≡ map (set_password i h) db.users))
              × (o.2.rows ≡ db.rows)))
          (same_statement p) (inr refl, refl));
  step-insert_history = λ db db' st st' code d i p t s e v m q.
      subst (λ (x : Stepped). RowStep db t v x.2) q
        (subst
          (λ (x : Statement). RowStep db t v (memory.step db (bind_row memory d i p t s e v x)).2)
          (same_statement m) (added db d i p t s e v));
}

pub Reads-ReadsOnly : (s : Statement) → memory-Outcomes.Reads s → ReadsOnly s.kind
unfolding memory-Outcomes
Reads-ReadsOnly s h = h

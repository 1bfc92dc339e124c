-- ===== src/Db/Memory/Users.antt =====
-- The database in memory meets the contract for the statements on users.
use raspi_cctv_tcp_server.Prelude.{
  ℕ, suc, ◌<◌, none, List, [], ◌∷◌, pos, ◌≡◌, refl, arith, find, Text, ◌++◌,
}
use raspi_cctv_tcp_server.Db.Model.{User}
use raspi_cctv_tcp_server.Db.Contract.{UserStatements, Yields, ShowsUser, has_id, bind_user}
use raspi_cctv_tcp_server.Db.Memory.{
  Store, Statement, memory, tables, largest_id, give_users, at_users, statement, insert_user,
}

at_users-Yields :
    (db : Store) (s : Statement) (u : User) (us : List User)
    → Yields memory (ShowsUser memory) db (record s { cursor = at_users (u ∷ us) }) us
at_users-Yields db s u [] = (record s { cursor = at_users [] }, refl)
at_users-Yields db s u (v ∷ us) = (
  record s { cursor = at_users (v ∷ us) },
  refl,
  (refl, refl, refl, refl),
  at_users-Yields db s v us,
)

give_users-Yields :
    (db : Store) (s : Statement) (us : List User)
    → memory.step db s ≡ give_users db s us
    → Yields memory (ShowsUser memory) db s us
give_users-Yields db s [] h = (record s { cursor = at_users [] }, h)
give_users-Yields db s (u ∷ us) h = (
  record s { cursor = at_users (u ∷ us) },
  h,
  (refl, refl, refl, refl),
  at_users-Yields db s u us,
)

pub above_all : (us : List User) (n : ℕ) → largest_id us < n → find (has_id (pos n)) us ≡ none
above_all [] n h = refl
above_all (u ∷ us) n h = ground (arith, above_all us n)

abbrev bound : Text → Text → Text → Statement
bound e h c = bind_user memory e h c (statement insert_user)

abbrev with_user : Store → Text → Text → Text → Store
with_user db e h c = record db {
  users =
      db.users
      ++ record {
        id = pos (suc (largest_id db.users));
        email = e;
        password_hash = h;
        created_at = c;
      }
        ∷ [];
}

pub user_statements : UserStatements memory tables
user_statements = record {
  select_by_email = λ db e. (_, refl, give_users-Yields db _ _ refl);
  select_by_id = λ db i. (_, refl, give_users-Yields db _ _ refl);
  next_id = λ db. pos (suc (largest_id db.users));
  next_id_fresh = λ db. above_all db.users _ (omega arith);
  insert = λ db e h c absent plain.
      (_, refl, (bound e h c, with_user db e h c, rw absent refl, (refl, refl)));
  insert_taken = λ db e h c u found. (_, refl, bound e h c, rw found refl);
  update = λ db i h. (_, refl, (_, _, refl, (refl, refl)));
  delete = λ db i. (_, refl, (_, _, refl, (refl, refl, refl)));
}

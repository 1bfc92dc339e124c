-- ===== src/Tests/Race.antt =====
-- Two clients register one address at once.
use raspi_cctv_tcp_server.Prelude.{
  ◌+◌, ◌-◌, ◌≤◌, [], ◌∷◌, Text, codes, ◌≡◌, refl, c_str, has_char, text_eq,
}
use raspi_cctv_tcp_server.Exec.{ok}
use raspi_cctv_tcp_server.Db.Users.{create_user, get_user_by_email}
use raspi_cctv_tcp_server.Db.Users.Table.{IsKeyed}
use raspi_cctv_tcp_server.Db.Memory.{tables}
use raspi_cctv_tcp_server.Db.Memory.Users.{user_statements}
use raspi_cctv_tcp_server.Server.Env.{World}
use raspi_cctv_tcp_server.Server.Response.{success, error}
use raspi_cctv_tcp_server.Server.Auth.Accounts.{Request, sign_up}
use raspi_cctv_tcp_server.Server.Auth.Threads.{
  Thread, starts, creates, replies, advance, Server, arrives, moves, Reaches, here, later,
}
use raspi_cctv_tcp_server.Server.Auth.Threads.Counting.{held, signed_up}
use raspi_cctv_tcp_server.Server.Auth.Threads.Moving.{stage, advance-Nears}
use raspi_cctv_tcp_server.Server.Auth.Threads.Interleaving.{Reaches-OneRow}
use raspi_cctv_tcp_server.Tests.Sample.{env, world, world-IsKeyed, bob}

abbrev one : Text
one = codes "one"

abbrev two : Text
two = codes "two"

abbrev quick : Request
quick = sign_up bob one

abbrev slow : Request
slow = sign_up bob two

-- After both have looked the address up, and after the quicker one's insertion.
abbrev inserted : World env
inserted = (advance env (creates bob one) world).1

abbrev final : World env
final = (advance env (creates bob two) inserted).1

abbrev raced : Server env
raced = record {
  threads =
      replies quick (success 200 "User registered successfully")
      ∷ replies slow (error 500 "Failed to create user")
      ∷ [];
  world = final;
}

race : Reaches env tables (record { threads = []; world = world }) raced
unfolding advance create_user get_user_by_email c_str text_eq
race =
    later
      (later
        (later
          (later (later (later here (arrives slow)) (arrives quick))
            (moves [] (starts quick) (creates bob one) (starts slow ∷ []) world refl refl))
          (moves (creates bob one ∷ []) (starts slow) (creates bob two) [] world refl refl))
        (moves [] (creates bob one) (replies quick (success 200 "User registered successfully"))
          (creates bob two ∷ []) inserted refl refl))
      (moves (replies quick (success 200 "User registered successfully") ∷ []) (creates bob two)
        (replies slow (error 500 "Failed to create user")) [] final refl refl)

Reaches-OneRow_example :
    IsKeyed (tables.users raced.world.db)
    × ((e : Text)
        → (held e (tables.users raced.world.db)
            ≡ held e (tables.users world.db) + signed_up e raced.threads)
          × (held e (tables.users world.db) + signed_up e raced.threads ≤ 1))
unfolding has_char c_str
Reaches-OneRow_example =
    Reaches-OneRow env tables user_statements world raced world-IsKeyed refl race

advance-Nears_example :
    (t' : Thread) × (w' : World env) × (advance env (creates bob two) world ≡ (ok t', w'))
    × (stage t' ≤ stage (creates bob two) - 1)
    × IsKeyed (tables.users w'.db)
unfolding has_char c_str
advance-Nears_example =
    advance-Nears env tables user_statements world world-IsKeyed (creates bob two) refl

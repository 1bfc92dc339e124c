-- ===== src/Tests/Managers.antt =====
-- The connection's manager: its theorem at the calls that the server makes.
use raspi_cctv_tcp_server.Prelude.{some, true, Text, codes, ◌≡◌, refl}
use raspi_cctv_tcp_server.Db.Manager.{Manager, new_manager, Opener, open_db, init}
use raspi_cctv_tcp_server.Db.Manager.States.{fresh, opens, inits, handle_of_open}
use raspi_cctv_tcp_server.Db.Memory.{Store, memory}
use raspi_cctv_tcp_server.Tests.Sample.{world}

abbrev pub opener : Opener memory
opener _ = (true, some world.db)

pub opener-opened : (p : Text) → (opener p).0 ≡ true → (c : Store) × ((opener p).1 ≡ some c)
opener-opened p h = (world.db, refl)

abbrev started : Manager memory
started = init memory (open_db memory opener (new_manager memory (codes "server_data.db"))).1

handle_of_open_example : (c : Store) × (started.db ≡ some c)
unfolding open_db init
handle_of_open_example =
    handle_of_open memory opener opener-opened (codes "server_data.db") started
      (inits (opens fresh refl)) refl

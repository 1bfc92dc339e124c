-- ===== src/Tests/Starts.antt =====
-- The start of the server and its loop: their theorems on a machine in memory.
use raspi_cctv_tcp_server.Prelude.{arith, some, none, true, false, [], ◌∷◌, refl}
use raspi_cctv_tcp_server.Exec.{ok, fault}
use raspi_cctv_tcp_server.Db.Memory.{Store, memory}
use raspi_cctv_tcp_server.Db.Manager.{new_manager, open_db, init, execute}
use raspi_cctv_tcp_server.Server.System.Contract.{update, demands_certificate}
use raspi_cctv_tcp_server.Server.Listener.{
  Listener, start, accept_round, end_thread, Reaches, here, later, takes, leaves,
}
use raspi_cctv_tcp_server.Server.Listener.Rounds.{Owned, Reaches-Owned}
use raspi_cctv_tcp_server.Server.Startup.{Running, run_main, database_path, new_command_handler}
use raspi_cctv_tcp_server.Server.Startup.Started.{IsClean, Started, run_main-Started}
use raspi_cctv_tcp_server.Server.Startup.Serving.{serving-Owned}
use raspi_cctv_tcp_server.Tests.Machine.{Machine, machine, machine_laws}
use raspi_cctv_tcp_server.Tests.Managers.{opener, opener-opened}
use raspi_cctv_tcp_server.Tests.Sample.{world}

-- Three clients wait; the second has no certificate.
abbrev booted : Machine
booted = record {
  resources = record {
    is_open = λ _. false;
    is_live = λ _. false;
    port_of = λ _. none;
    bound_to = λ _. none;
    verifies = λ _. [];
    context_of = λ _. 0;
    is_verified = λ _. false;
  };
  next = 3;
  waiting = true ∷ false ∷ true ∷ [];
  has_files = true;
}

abbrev bare : Machine
bare = record booted { has_files = false }

clean : IsClean machine machine_laws booted.resources
clean = record { no_fd = λ f. refl; no_ssl = λ j. refl }

abbrev listening : Machine
listening = record booted {
  resources = record booted.resources {
    is_open = update 3 true (λ _. false);
    port_of = update 3 (some 8080) (λ _. none);
    bound_to = update 3 (some 8080) (λ _. none);
    verifies = update 0 demands_certificate (λ _. []);
  };
  next = 4;
}

-- The handle of the opened database.
abbrev db : Store
unfolding open_db init execute
db = elim (init memory (open_db memory opener (new_manager memory database_path)).1).db [
  | none ↦ world.db
  | some c ↦ c
]

abbrev running : Running machine memory
unfolding open_db init execute
running = record {
  manager = init memory (open_db memory opener (new_manager memory database_path)).1;
  command_handler = some (new_command_handler (some db) (record { db = some db }));
  server = record {
    server_fd = some 3;
    ssl_ctx = 0;
    image_handler = some (record { db = some db });
  };
}

run_main-Started_example :
    Started machine machine_laws memory opener opener-opened running listening
unfolding run_main machine_laws
run_main-Started_example =
    run_main-Started machine machine_laws memory opener opener-opened booted listening running clean
      refl

abbrev after_round : Listener machine → Listener machine
unfolding accept_round
after_round l = elim (accept_round machine l) [ ok l' ↦ l' | fault f ↦ l ]

abbrev first : Listener machine
first = start machine 3 0 listening

first-Owned : Owned machine machine_laws first
unfolding machine_laws
first-Owned = record {
  fds = λ f. ground arith;
  tls = λ j. refl;
  distinct = tt;
  listening = refl;
  verified = tt;
  demands = refl;
}

abbrev served : Listener machine
served = after_round (after_round (after_round first))

-- A client is served, the second is turned away, a third is served, and the first one leaves.
abbrev left : Listener machine
unfolding end_thread
left =
    end_thread machine (record { client_fd = 8; ssl = 9 } ∷ []) (record { client_fd = 4; ssl = 5 })
      [] served

reached : Reaches machine first left
unfolding accept_round end_thread after_round left
reached =
    later
      (later
        (later (later here (takes (after_round first) refl))
          (takes (after_round (after_round first)) refl))
        (takes served refl))
      (leaves (record { client_fd = 8; ssl = 9 } ∷ []) (record { client_fd = 4; ssl = 5 }) [] refl)

Reaches-Owned_example : Owned machine machine_laws left
Reaches-Owned_example = Reaches-Owned machine machine_laws reached first-Owned

serving-Owned_example : Owned machine machine_laws left
unfolding run_main machine_laws
serving-Owned_example =
    serving-Owned machine machine_laws memory opener opener-opened booted listening running first
      left clean refl refl reached

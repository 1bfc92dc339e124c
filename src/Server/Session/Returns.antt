-- ===== src/Server/Session/Returns.antt =====
-- What a session can end in.
use raspi_cctv_tcp_server.Prelude.{Bool, ◌≡◌, ◌⊎◌}
use raspi_cctv_tcp_server.Exec.{Result, ok, fault, uncaught}
use raspi_cctv_tcp_server.Db.Contract.Outcomes.{Outcomes}
use raspi_cctv_tcp_server.Db.Contract.Columns.{Columns}
use raspi_cctv_tcp_server.Server.Env.{Env}

abbrev pub ReturnsOrThrows : Result Bool → Type 0
ReturnsOrThrows r = ((b : Bool) × (r ≡ ok b)) ⊎ (r ≡ fault uncaught)

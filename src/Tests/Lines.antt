-- ===== src/Tests/Lines.antt =====
-- The protocol's lines: the theorems on dispatch at concrete lines.
use raspi_cctv_tcp_server.Prelude.{Text, codes, ◌≡◌, refl}
use raspi_cctv_tcp_server.Server.Commands.{handle}
use raspi_cctv_tcp_server.Server.Commands.Lines.{line, run, add_history, handle-line}
use raspi_cctv_tcp_server.Tests.Sample.{env}

abbrev payload : Text
payload = codes "10 0"

handle-line_example : handle env (line env add_history payload) ≡ run env add_history payload
handle-line_example = handle-line env add_history payload (refl, (refl, (refl, (refl, tt))))

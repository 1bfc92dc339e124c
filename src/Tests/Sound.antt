-- ===== src/Tests/Sound.antt =====
-- The server's state: the theorems on a session at a concrete client.
use raspi_cctv_tcp_server.Prelude.{refl, text_eq, c_str}
use raspi_cctv_tcp_server.Db.Memory.{tables}
use raspi_cctv_tcp_server.Db.Memory.Outcomes.{memory-Outcomes}
use raspi_cctv_tcp_server.Server.Soundness.{IsSound}
use raspi_cctv_tcp_server.Server.Session.{handle_client}
use raspi_cctv_tcp_server.Server.Session.Keeping.{handle_client-IsSound}
use raspi_cctv_tcp_server.Tests.Document.{documents-JsonContract}
use raspi_cctv_tcp_server.Tests.Disk.{disks-FilesContract}
use raspi_cctv_tcp_server.Tests.Wire.{wires}
use raspi_cctv_tcp_server.Tests.Sample.{env, world, world-IsKeyed}
use raspi_cctv_tcp_server.Tests.Rows.{world-SoundRow}
use raspi_cctv_tcp_server.Tests.Frames.{sharp-IsSettled}
use raspi_cctv_tcp_server.Tests.Clients.{talk}

world-IsSound : IsSound env tables documents-JsonContract world
unfolding text_eq c_str
world-IsSound = record { keyed = world-IsKeyed; rows = world-SoundRow; config = sharp-IsSettled }

handle_client-IsSound_example :
    IsSound env tables documents-JsonContract (handle_client env wires 40 talk).1.world
handle_client-IsSound_example =
    handle_client-IsSound env wires tables documents-JsonContract memory-Outcomes
      disks-FilesContract refl 40 talk world-IsSound

-- ===== src/Tests/Clients.antt =====
-- A client's connection: the theorems on its lines at a concrete connection.
use raspi_cctv_tcp_server.Prelude.{
  ◌<◌, List, Text, All, starts_with, [], ◌∷◌, codes, ◌≡◌, refl, arith, length,
}
use raspi_cctv_tcp_server.Server.Session.{handle_client}
use raspi_cctv_tcp_server.Server.Net.{Link}
use raspi_cctv_tcp_server.Server.Session.Pipeline.{
  IsPlain, script, transcript, Follows, handle_client-transcript,
}
use raspi_cctv_tcp_server.Tests.Wire.{wires, wires-TlsContract, wires-Healthy, wires-incoming}
use raspi_cctv_tcp_server.Tests.Sample.{env, world}

-- A client that asks for the history, sends a blank line and closes in the middle of a third one.
abbrev pub talk : Link env wires
talk = record {
  world = world;
  conn = record { incoming = codes "GET_HISTORY ann@a.b 5\n\nGET"; sent = [] };
}

pub talk-lt : length (wires-TlsContract.incoming talk.conn) < 40
talk-lt = rw (wires-incoming talk.conn) (omega arith)

-- A client that asks for the log, sends a blank line, a command that is unknown and half a line.
abbrev said : List Text
said = codes "GET_LOG" ∷ [] ∷ codes "QUIT" ∷ []

abbrev half : Text
half = codes "GE"

abbrev visit : Link env wires
visit = record {
  world = world;
  conn = record { incoming = codes "GET_LOG\n\nQUIT\nGE"; sent = [] };
}

said-IsPlain : All IsPlain said
unfolding starts_with
said-IsPlain = (
  record {
    clean = (refl, (refl, (refl, (refl, (refl, (refl, (refl, tt)))))));
    no_upload = refl;
    no_image = refl;
  },
  (
    record { clean = tt; no_upload = refl; no_image = refl },
    (record { clean = (refl, (refl, (refl, (refl, tt)))); no_upload = refl; no_image = refl }, tt),
  ),
)

visit-script : wires-TlsContract.incoming visit.conn ≡ script said half
visit-script = wires-incoming visit.conn

visit-lt : length (wires-TlsContract.incoming visit.conn) < 20
visit-lt = rw (wires-incoming visit.conn) (omega arith)

handle_client-transcript_example :
    Follows env wires wires-TlsContract wires-Healthy visit
      (transcript env said visit.world)
      (handle_client env wires 20 visit)
handle_client-transcript_example =
    handle_client-transcript env wires wires-TlsContract wires-Healthy 20 said half visit
      said-IsPlain (refl, (refl, tt)) visit-script visit-lt

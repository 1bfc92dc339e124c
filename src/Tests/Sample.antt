-- ===== src/Tests/Sample.antt =====
-- A server in memory with one user, two rows of history and the camera's settings.
use raspi_cctv_tcp_server.Prelude.{
  ℕ, ◌*◌, ◌/◌, none, some, true, false, List, [], ◌∷◌, ◌++◌, Text, pos, codes, refl, take,
}
use raspi_cctv_tcp_server.Stream.{Stream}
use raspi_cctv_tcp_server.Floats.{Floats}
use raspi_cctv_tcp_server.Db.Model.{User}
use raspi_cctv_tcp_server.Db.Contract.{Row}
use raspi_cctv_tcp_server.Db.Users.Table.{IsKeyed}
use raspi_cctv_tcp_server.Db.Memory.{memory, tables}
use raspi_cctv_tcp_server.Server.Env.{Env, World}
use raspi_cctv_tcp_server.Server.Auth.{hash_password}
use raspi_cctv_tcp_server.Server.Net.{Link}
use raspi_cctv_tcp_server.Server.Overlay.{config_path}
use raspi_cctv_tcp_server.Tests.Document.{Value, settings, documents}
use raspi_cctv_tcp_server.Tests.Disk.{disks}
use raspi_cctv_tcp_server.Tests.Wire.{wires}

-- The number of a text's first byte, in place of a decimal fraction.
abbrev read_byte : ℕ → Text → ℕ × Stream
read_byte old [] = (old, record { rest = []; failed = true })
read_byte old (c ∷ s) = (c, record { rest = s; failed = false })

abbrev pub whole_numbers : Floats
whole_numbers = record {
  Float = ℕ;
  Double = ℕ;
  widen = λ x. x;
  narrow = λ x. x;
  minus_one = 0;
  nonneg = λ x. true;
  of_nat = λ n. n;
  mul = ◌*◌;
  div = ◌/◌;
  round = λ x. x;
  read = λ old s. read_byte old s.rest;
}

-- 32 bytes of the text itself, in place of a digest
abbrev pub first_bytes : Text → List ℕ
first_bytes t = take 32 (t ++ codes "................................")

abbrev pub env : Env
env = record {
  floats = whole_numbers;
  sqlite = memory;
  json = documents;
  files = disks;
  sha256 = first_bytes;
}

abbrev pub noon : Text
noon = codes "2025-06-01T12:00:00Z"

abbrev pub ann : Text
ann = codes "ann@x"

abbrev pub bob : Text
bob = codes "bob@x"

abbrev pub ann_user : User
ann_user = record {
  id = pos 1;
  email = ann;
  password_hash = hash_password env (codes "pw");
  created_at = noon;
}

abbrev pub parked : Row ℕ
parked = record {
  id = pos 1;
  date = codes "2025-06-01 10:00:00";
  image_path = codes "images/a.jpg";
  plate_number = codes "12A3456";
  event_type = pos 0;
  start_snapshot = some (codes "images/b.jpg");
  end_snapshot = some (codes "images/c.jpg");
  speed = none;
}

abbrev pub sped : Row ℕ
sped = record {
  id = pos 2;
  date = codes "2025-06-02 10:00:00";
  image_path = codes "images/d.jpg";
  plate_number = codes "34B5678";
  event_type = pos 1;
  start_snapshot = some [];
  end_snapshot = some [];
  speed = some 80;
}

abbrev pub sharp_settings : Value
sharp_settings = settings (some (codes "sharp")) (some (pos 40)) (some true) (some false)

abbrev pub world : World env
world = record {
  db = record { users = ann_user ∷ []; rows = parked ∷ sped ∷ []; changed = 0 };
  disk =
      (config_path, 5 ∷ 2 ∷ 1 ∷ 1 ∷ 40 ∷ 6 ∷ codes "sharp")
      ∷ (codes "images/a.jpg", codes "JPEG")
      ∷ [];
  now = noon;
  stale_int = pos 7;
  stale_size = 9;
}

-- A client that has sent five bytes which are still to be read.
abbrev pub link : Link env wires
link = record { world = world; conn = record { incoming = codes "BYTES"; sent = [] } }

pub world-IsKeyed : IsKeyed (tables.users world.db)
world-IsKeyed = record { ids = (refl, tt); emails = (refl, tt) }

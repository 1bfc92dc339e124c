-- ===== src/Server/Env.antt =====
-- What the handlers call and do not implement, as parameters: nlohmann's json, the file system,
-- SHA-256, SQLite and floating point. `World` is what a handler can change or read.
pub mod Fuel
pub mod Calls
use raspi_cctv_tcp_server.Prelude.{ℕ, Bool, Option, String, Text, List, ℤ}
use raspi_cctv_tcp_server.Floats.{Floats}
use raspi_cctv_tcp_server.Db.Sqlite.{Sqlite}
use raspi_cctv_tcp_server.Exec.{Exec}

-- `none` stands for an exception of the library.
pub record Json (Float : Type 0) : Type 1 where
  pub Value : Type 0
  -- `ifs >> config`
  pub parse : Text → Option Value
  pub dump : Value → Option Text
  pub null : Value
  pub string : Text → Value
  pub int : ℤ → Value
  pub bool : Bool → Value
  pub float : Float → Value
  pub array : List Value → Value
  pub object : List (String × Value) → Value
  -- `v[key] = x` and `v.erase(key)`
  pub set : Value → String → Value → Option Value
  pub erase : Value → String → Option Value

-- The calls take the whole std::string, and read it as a path up to its first zero byte. A stream's
-- writes stand on the disk as they do once the stream is closed.
pub record Files : Type 1 where
  pub Disk : Type 0
  -- the whole text of a file that an input stream can open and read to its end
  pub read : Disk → Text → Option Text
  -- what an input stream can open, but not read to its end, such as a directory: the offset that
  -- tellg gives at the end, and the bytes before the read that fails
  pub unreadable : Disk → Text → Option (ℕ × Text)
  -- `none` stands for an exception of std::filesystem, as for a name that is too long.
  pub exists : Disk → Text → Option Bool
  pub create_directory : Disk → Text → Option Disk
  -- an output stream: the file is there and empty, if it could be opened
  pub create : Disk → Text → Option Disk
  -- what a write to the stream leaves, in full or in part
  pub append : Disk → Text → Text → Disk
  -- after `close`, is the stream good: did all writes reach the file?
  pub closes_well : Disk → Text → Bool
  -- `none` stands for an exception of std::filesystem.
  pub remove : Disk → Text → Option Disk

pub record Env : Type 1 where
  pub floats : Floats
  pub sqlite : Sqlite floats.Double
  pub json : Json floats.Float
  pub files : Files
  -- the 32 bytes of the digest
  pub sha256 : Text → List ℕ

pub record World (E : Env) : Type 0 where
  pub db : E.sqlite.Connection
  pub disk : E.files.Disk
  -- the time of day, formatted as "%Y-%m-%dT%H:%M:%SZ"
  pub now : Text
  -- what the memory of a local variable holds that is not initialised
  pub stale_int : ℤ
  pub stale_size : ℕ

module _ (E : Env) where
  -- A repository's method, called by a handler.
  abbrev pub on_db : {A : Type 0} → Exec E.sqlite.Connection A → Exec (World E) A
  on_db m w = let o = m w.db in (o.0, record w { db = o.1 })

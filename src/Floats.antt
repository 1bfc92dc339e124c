-- ===== src/Floats.antt =====
-- The source's `float` and `double`, which the model takes as parameters: the two types, the
-- conversions, and the operations and the stream extraction that the handlers call.
use raspi_cctv_tcp_server.Prelude.{ℕ, Bool}
use raspi_cctv_tcp_server.Stream.{Stream}

pub record Floats : Type 1 where
  pub Float : Type 0
  pub Double : Type 0
  -- a float passed as a double, and `static_cast<float>`
  pub widen : Float → Double
  pub narrow : Double → Float
  pub minus_one : Float
  -- x >= 0
  pub nonneg : Float → Bool
  pub of_nat : ℕ → Float
  pub mul : Float → Float → Float
  pub div : Float → Float → Float
  pub round : Float → Float
  -- `iss >> x`, from the variable's old value
  pub read : Float → Stream → Float × Stream

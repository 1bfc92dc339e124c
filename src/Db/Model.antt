-- ===== src/Db/Model.antt =====
-- include/db/model: the structs that the repositories read and write.
use raspi_cctv_tcp_server.Prelude.{Option, Text, ℤ}

pub record User : Type 0 where
  pub id : ℤ
  pub email : Text
  pub password_hash : Text
  pub created_at : Text

pub record History (Float : Type 0) : Type 0 where
  pub date : Text
  pub image_path : Text
  pub plate_number : Text
  pub event_type : ℤ
  pub start_snapshot : Text
  pub end_snapshot : Text
  pub speed : Option Float
  pub id : ℤ

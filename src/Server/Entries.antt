-- ===== src/Server/Entries.antt =====
-- src/server/CommandHandler.cpp: the json that the four queries of the history reply with.
pub mod Tidying
use raspi_cctv_tcp_server.Prelude.{
  Option, none, some, List, [], ◌∷◌, ◌++◌, map, Text, pos, codes, is_int, if◌then◌else◌,
}
use raspi_cctv_tcp_server.Db.Model.{History}
use raspi_cctv_tcp_server.Server.Env.{Env}

module _ (E : Env) where
  open E use {floats, json}

  -- std::round(speed * 100) / 100.0f
  abbrev rounded : floats.Float → floats.Float
  rounded v = floats.div (floats.round (floats.mul v (floats.of_nat 100))) (floats.of_nat 100)

  abbrev speed_json : Option floats.Float → json.Value
  speed_json none = json.null
  speed_json (some v) = json.float (rounded v)

  abbrev entry : History floats.Float → Text → Text → json.Value → json.Value
  entry h start end speed = json.object (
      ("id", json.int h.id)
      ∷ ("date", json.string h.date)
      ∷ ("image_path", json.string h.image_path)
      ∷ ("plate_number", json.string h.plate_number)
      ∷ ("event_type", json.int h.event_type)
      ∷ ("start_snapshot", json.string start)
      ∷ ("end_snapshot", json.string end)
      ∷ ("speed", speed)
      ∷ [])

  -- The entries of GET_HISTORY and GET_HISTORY_BY_DATE_RANGE: every field, some of them blank.
  unfoldable pub full_entry : History floats.Float → json.Value
  full_entry h =
      if is_int h.event_type 0
      then entry h h.start_snapshot h.end_snapshot json.null
      else if is_int h.event_type 1
      then entry h [] [] (speed_json h.speed)
      else entry h [] [] json.null

  abbrev parking_entry : History floats.Float → json.Value
  parking_entry h = json.object (
      ("id", json.int h.id)
      ∷ ("date", json.string h.date)
      ∷ ("image_path", json.string h.image_path)
      ∷ ("plate_number", json.string h.plate_number)
      ∷ ("event_type", json.int h.event_type)
      ∷ ("start_snapshot", json.string h.start_snapshot)
      ∷ ("end_snapshot", json.string h.end_snapshot)
      ∷ [])

  abbrev speeding_object : History floats.Float → json.Value
  speeding_object h = json.object (
      ("id", json.int h.id)
      ∷ ("date", json.string h.date)
      ∷ ("image_path", json.string h.image_path)
      ∷ ("plate_number", json.string h.plate_number)
      ∷ ("event_type", json.int h.event_type)
      ∷ [])

  -- `if (h.speed.has_value()) obj["speed"] = rounded;`
  abbrev speeding_entry : History floats.Float → Option floats.Float → Option json.Value
  speeding_entry h none = some (speeding_object h)
  speeding_entry h (some v) = json.set (speeding_object h) "speed" (json.float (rounded v))

  abbrev child_entry : History floats.Float → json.Value
  child_entry h = json.object (
      ("id", json.int h.id)
      ∷ ("date", json.string h.date)
      ∷ ("image_path", json.string h.image_path)
      ∷ ("event_type", json.int h.event_type)
      ∷ [])

  abbrev one : Option json.Value → Option (List json.Value)
  one none = none
  one (some v) = some (v ∷ [])

  -- The entries of the queries by event type: only the fields of the type, and none for a type
  -- other than 0, 1 and 2.
  unfoldable pub lean_entry : History floats.Float → Option (List json.Value)
  lean_entry h =
      if is_int h.event_type 0
      then some (parking_entry h ∷ [])
      else if is_int h.event_type 1
      then one (speeding_entry h h.speed)
      else if is_int h.event_type 2
      then some (child_entry h ∷ [])
      else some []

  abbrev joined : Option (List json.Value) → Option (List json.Value) → Option (List json.Value)
  joined none r = none
  joined (some vs) none = none
  joined (some vs) (some ws) = some (vs ++ ws)

  unfoldable pub lean_entries : List (History floats.Float) → Option (List json.Value)
  unfolding lean_entry
  lean_entries [] = some []
  lean_entries (h ∷ hs) = joined (lean_entry h) (lean_entries hs)

  abbrev pub full_entries : List (History floats.Float) → Option (List json.Value)
  full_entries hs = some (map full_entry hs)

  -- The text of the reply, unless the library throws.
  abbrev pub document : Option (List json.Value) → Option Text
  document none = none
  document (some entries) = json.dump (
      json.object (
        ("status", json.string (codes "success"))
        ∷ ("code", json.int (pos 200))
        ∷ ("message", json.string (codes "History retrieved successfully"))
        ∷ ("data", json.array entries)
        ∷ []))

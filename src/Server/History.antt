-- ===== src/Server/History.antt =====
-- src/server/CommandHandler.cpp: handleAddHistory and the four queries of the history.
pub mod Adding
pub mod Listing
pub mod Fuel
pub mod Keeping
pub mod RoundTrip
pub mod Order
use raspi_cctv_tcp_server.Prelude.{
  ℕ, suc, Option, none, some, Bool, ◌&&◌, ◌||◌, not, List, [], ◌∷◌, ◌++◌, map, String, Text, ℤ, pos,
  negsuc, codes, is_empty, is_none, is_neg, is_nonpos, is_int, exceeds, to_nat, ◌==◌, if◌then◌else◌,
}
use raspi_cctv_tcp_server.Exec.{Exec, pure, or_raise, uncaught, ◌>>=◌}
use raspi_cctv_tcp_server.Stream.{Stream, open_stream, read_word, read_int}
use raspi_cctv_tcp_server.Db.Model.{History}
use raspi_cctv_tcp_server.Db.Users.{get_user_by_email}
use raspi_cctv_tcp_server.Db.Histories.{
  create_history, get_histories, get_histories_by_event_type, get_histories_by_date_range,
  get_histories_by_event_type_and_date_range,
}
use raspi_cctv_tcp_server.Server.Entries.{lean_entries, full_entries, document}
use raspi_cctv_tcp_server.Server.Env.{Env, World, on_db}
use raspi_cctv_tcp_server.Server.Response.{Response, error, success, dumped}

-- What `iss >> rawDate >> ... >> speed` leaves in the local variables of handleAddHistory.
pub record Fields (Float : Type 0) : Type 0 where
  pub raw_date : Text
  pub image_path : Text
  pub plate_number : Text
  pub event_type : ℤ
  pub start_snapshot : Text
  pub end_snapshot : Text
  pub speed : Float

-- std::replace(rawDate.begin(), rawDate.end(), '_', ' ')
abbrev pub with_blanks : Text → Text
with_blanks = map (λ c. if c == b'_' then 32 else c)

module _ (E : Env) where
  open E use {floats, sqlite, json}

  -- The event type has no initial value: it keeps `stale` if the stream has failed before it.
  unfoldable pub read_fields : ℤ → Text → Fields floats.Float
  unfolding open_stream
  read_fields stale payload =
      let (raw_date, s1) = read_word [] (open_stream payload) in
      let (image_path, s2) = read_word [] s1 in
      let (plate_number, s3) = read_word [] s2 in
      let (event_type, s4) = read_int stale s3 in
      let (start_snapshot, s5) = read_word [] s4 in
      let (end_snapshot, s6) = read_word [] s5 in
      let (speed, _) = floats.read floats.minus_one s6 in
      record {
        raw_date = raw_date;
        image_path = image_path;
        plate_number = plate_number;
        event_type = event_type;
        start_snapshot = start_snapshot;
        end_snapshot = end_snapshot;
        speed = speed;
      }

  abbrev pub refused : Fields floats.Float → Bool
  refused f =
      is_empty f.raw_date
      || is_empty f.image_path
      || is_empty f.plate_number
      || is_neg f.event_type
      || exceeds f.event_type 2

  -- The identity is the struct's default, -1.
  abbrev pub new_history : Fields floats.Float → History floats.Float
  new_history f = record {
    date = with_blanks f.raw_date;
    image_path = f.image_path;
    plate_number = f.plate_number;
    event_type = f.event_type;
    start_snapshot = f.start_snapshot;
    end_snapshot = f.end_snapshot;
    speed = if is_int f.event_type 1 && floats.nonneg f.speed then some f.speed else none;
    id = negsuc 0;
  }

  unfoldable pub add_history : Fields floats.Float → Exec (World E) Response
  add_history f = if refused f then pure (error 400 "Invalid input format") else do
    created ← on_db E (create_history floats sqlite (new_history f))
    if not created
        then pure (error 500 "Failed to create history")
        else pure (success 200 "History created successfully")

  unfoldable pub handle_add_history : Text → Exec (World E) Response
  unfolding add_history read_fields
  handle_add_history payload w = add_history (read_fields w.stale_int payload) w

  abbrev dump_reply : Option (List json.Value) → Exec (World E) Response
  dump_reply entries = do text ← or_raise uncaught (document E entries); pure (dumped text)

  -- The part that the four queries share: the user must be known, and the rows are rendered.
  abbrev list_for :
      Text
      → Exec sqlite.Connection (List (History floats.Float))
      → (List (History floats.Float) → Option (List json.Value))
      → Exec (World E) Response
  list_for email query entries = do
    found ← on_db E (get_user_by_email sqlite email)
    if is_none found
        then pure (error 404 "User not found")
        else do history ← on_db E query; dump_reply (entries history)

  -- A query makes at most one step more than its limit.
  abbrev pub steps : ℤ → ℕ
  steps limit = suc (to_nat limit)

  unfoldable pub get_history : Text → ℤ → ℤ → Exec (World E) Response
  get_history email limit offset =
      if is_empty email || is_nonpos limit || is_neg offset
      then pure (error 400 "Invalid input format")
      else list_for email (get_histories floats sqlite (steps limit) limit offset) (full_entries E)

  unfoldable pub handle_get_history : Text → Exec (World E) Response
  unfolding get_history open_stream
  handle_get_history payload =
      let (email, s1) = read_word [] (open_stream payload) in
      let (limit, s2) = read_int (pos 10) s1 in
      let (offset, _) = read_int (pos 0) s2 in get_history email limit offset

  unfoldable pub get_history_by_event_type : Text → ℤ → ℤ → ℤ → Exec (World E) Response
  get_history_by_event_type email event_type limit offset =
      if is_empty email || is_neg event_type || is_nonpos limit || is_neg offset
      then pure (error 400 "Invalid input format")
      else list_for email
          (get_histories_by_event_type floats sqlite (steps limit) event_type limit offset)
          (lean_entries E)

  unfoldable pub handle_get_history_by_event_type : Text → Exec (World E) Response
  unfolding get_history_by_event_type open_stream
  handle_get_history_by_event_type payload =
      let (email, s1) = read_word [] (open_stream payload) in
      let (event_type, s2) = read_int (pos 0) s1 in
      let (limit, s3) = read_int (pos 10) s2 in
      let (offset, _) = read_int (pos 0) s3 in
      get_history_by_event_type email event_type limit offset

  abbrev pub day_start : Text → Text
  day_start d = d ++ codes " 00:00:00"

  abbrev pub day_end : Text → Text
  day_end d = d ++ codes " 23:59:59"

  unfoldable pub get_history_by_date_range : Text → Text → Text → ℤ → ℤ → Exec (World E) Response
  get_history_by_date_range email start_raw end_raw limit offset =
      if is_empty email
        || is_empty start_raw
        || is_empty end_raw
        || is_nonpos limit
        || is_neg offset
      then pure (error 400 "Invalid input format")
      else list_for email
          (get_histories_by_date_range floats sqlite (steps limit) (day_start start_raw)
            (day_end end_raw) limit offset)
          (full_entries E)

  unfoldable pub handle_get_history_by_date_range : Text → Exec (World E) Response
  unfolding get_history_by_date_range open_stream
  handle_get_history_by_date_range payload =
      let (email, s1) = read_word [] (open_stream payload) in
      let (start_raw, s2) = read_word [] s1 in
      let (end_raw, s3) = read_word [] s2 in
      let (limit, s4) = read_int (pos 10) s3 in
      let (offset, _) = read_int (pos 0) s4 in
      get_history_by_date_range email start_raw end_raw limit offset

  unfoldable pub get_history_by_event_type_and_date_range :
      Text → ℤ → Text → Text → ℤ → ℤ → Exec (World E) Response
  get_history_by_event_type_and_date_range email event_type start_raw end_raw limit offset =
      if is_empty email
        || is_empty start_raw
        || is_empty end_raw
        || is_neg event_type
        || is_nonpos limit
        || is_neg offset
      then pure (error 400 "Invalid input format")
      else list_for email
          (get_histories_by_event_type_and_date_range floats sqlite (steps limit) event_type
            (day_start start_raw) (day_end end_raw) limit offset)
          (lean_entries E)

  unfoldable pub handle_get_history_by_event_type_and_date_range : Text → Exec (World E) Response
  unfolding get_history_by_event_type_and_date_range open_stream
  handle_get_history_by_event_type_and_date_range payload =
      let (email, s1) = read_word [] (open_stream payload) in
      let (event_type, s2) = read_int (pos 0) s1 in
      let (start_raw, s3) = read_word [] s2 in
      let (end_raw, s4) = read_word [] s3 in
      let (limit, s5) = read_int (pos 10) s4 in
      let (offset, _) = read_int (pos 0) s5 in
      get_history_by_event_type_and_date_range email event_type start_raw end_raw limit offset

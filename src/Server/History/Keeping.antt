-- ===== src/Server/History/Keeping.antt =====
-- The commands on the history keep the server's state sound.
use raspi_cctv_tcp_server.Prelude.{
  Option, false, ◌||◌, not, List, [], ◌∷◌, Text, pos, ◌≡◌, inl, inr, arith, All-append, is_empty,
  is_none, is_nonpos, is_neg,
}
use raspi_cctv_tcp_server.Exec.{Exec, or_raise, uncaught}
use raspi_cctv_tcp_server.Exec.Keeping.{Keeps, bind-Keeps, if-Keeps, guard-Keeps, or_raise-Keeps}
use raspi_cctv_tcp_server.Stream.{open_stream, read_word, read_int}
use raspi_cctv_tcp_server.Db.Model.{History}
use raspi_cctv_tcp_server.Db.Contract.{Row, Tables}
use raspi_cctv_tcp_server.Db.Contract.Outcomes.{Outcomes}
use raspi_cctv_tcp_server.Db.Users.{get_user_by_email}
use raspi_cctv_tcp_server.Db.Users.Keeping.{SameTables}
use raspi_cctv_tcp_server.Db.Histories.{
  create_history, get_histories, get_histories_by_event_type, get_histories_by_date_range,
  get_histories_by_event_type_and_date_range,
}
use raspi_cctv_tcp_server.Db.Histories.Queries.{widened}
use raspi_cctv_tcp_server.Db.Histories.Keeping.{
  RowStep, create_history-RowStep, get_histories-SameTables, get_histories_by_event_type-SameTables,
  get_histories_by_date_range-SameTables, get_histories_by_event_type_and_date_range-SameTables,
}
use raspi_cctv_tcp_server.Server.Env.{Env, World, on_db}
use raspi_cctv_tcp_server.Server.Entries.{document, full_entries, lean_entries}
use raspi_cctv_tcp_server.Server.Overlay.Contract.{JsonContract}
use raspi_cctv_tcp_server.Server.Soundness.{IsSound, lookup-Keeps, query-Keeps}
use raspi_cctv_tcp_server.Server.History.Adding.{SoundRow}
use raspi_cctv_tcp_server.Server.History.{
  Fields, read_fields, refused, new_history, add_history, handle_add_history, list_for, steps,
  day_start, day_end, get_history, handle_get_history, get_history_by_event_type,
  handle_get_history_by_event_type, get_history_by_date_range, handle_get_history_by_date_range,
  get_history_by_event_type_and_date_range, handle_get_history_by_event_type_and_date_range,
}

module _ (E : Env) (T : Tables E.sqlite) (json : JsonContract E.json)
    (outcomes : Outcomes E.sqlite T) where
  open E use {floats, sqlite}

  abbrev Sound : World E → Type 0
  Sound = IsSound E T json

  accepted-SoundRow :
      (f : Fields floats.Float) (r : Row floats.Double)
      → refused E f ≡ false
      → r.event_type ≡ f.event_type
      → r.speed ≡ widened floats (new_history E f).speed
      → SoundRow E r
  accepted-SoundRow f r h t v = (rw t (ground arith), λ x e. ground arith)

  created-IsSound :
      (f : Fields floats.Float) (w : World E) (db : sqlite.Connection)
      → refused E f ≡ false
      → RowStep floats sqlite T outcomes (new_history E f) w.db db
      → Sound w
      → Sound (record w { db = db })
  created-IsSound f w db h (inl same, us) s = record {
    keyed = rw us s.keyed;
    rows = rw same s.rows;
    config = s.config;
  }
  created-IsSound f w db h (inr (r, t, v, more), us) s = record {
    keyed = rw us s.keyed;
    rows =
        rw more
          (All-append (SoundRow E) (T.rows w.db) (r ∷ []) s.rows (accepted-SoundRow f r h t v, tt));
    config = s.config;
  }

  add_history-Keeps : (f : Fields floats.Float) → Keeps Sound (add_history E f)
  unfolding add_history
  add_history-Keeps f =
      let create = create_history floats sqlite (new_history E f) in
      guard-Keeps Sound (refused E f) _ _ (λ w s. s)
        λ h.
          bind-Keeps Sound (on_db E create) _
            (λ w s.
              created-IsSound f w _ h
                (create_history-RowStep floats sqlite T outcomes (new_history E f) w.db) s)
            λ created. if-Keeps Sound (not created) _ _ (λ w s. s) (λ w s. s)

  pub handle_add_history-Keeps : (payload : Text) → Keeps Sound (handle_add_history E payload)
  unfolding handle_add_history
  handle_add_history-Keeps payload w s = add_history-Keeps (read_fields E w.stale_int payload) w s

  list_for-Keeps :
      (email : Text) (query : Exec sqlite.Connection (List (History floats.Float)))
      (entries : List (History floats.Float) → Option (List E.json.Value))
      → ((db : sqlite.Connection) → SameTables sqlite T outcomes db (query db).1)
      → Keeps Sound (list_for E email query entries)
  list_for-Keeps email query entries h =
      bind-Keeps Sound (on_db E (get_user_by_email sqlite email)) _
        (lookup-Keeps E T json outcomes email)
        λ found.
          if-Keeps Sound (is_none found) _ _ (λ w s. s)
            (bind-Keeps Sound (on_db E query) _ (query-Keeps E T json outcomes query h) λ history.
              bind-Keeps Sound (or_raise uncaught (document E (entries history))) _
                (or_raise-Keeps Sound uncaught (document E (entries history))) (λ text w s. s))

  module _ (payload : Text) where
    pub handle_get_history-Keeps : Keeps Sound (handle_get_history E payload)
    unfolding handle_get_history get_history
    handle_get_history-Keeps =
        let (email, s1) = read_word [] (open_stream payload) in
        let (limit, s2) = read_int (pos 10) s1 in
        let (offset, _) = read_int (pos 0) s2 in
        if-Keeps Sound (is_empty email || is_nonpos limit || is_neg offset) _ _ (λ w s. s)
          (list_for-Keeps email (get_histories floats sqlite (steps E limit) limit offset)
            (full_entries E)
            (get_histories-SameTables floats sqlite T outcomes (steps E limit) limit offset))

    pub handle_get_history_by_event_type-Keeps :
        Keeps Sound (handle_get_history_by_event_type E payload)
    unfolding handle_get_history_by_event_type get_history_by_event_type
    handle_get_history_by_event_type-Keeps =
        let (email, s1) = read_word [] (open_stream payload) in
        let (event_type, s2) = read_int (pos 0) s1 in
        let (limit, s3) = read_int (pos 10) s2 in
        let (offset, _) = read_int (pos 0) s3 in
        if-Keeps Sound (is_empty email || is_neg event_type || is_nonpos limit || is_neg offset) _ _
          (λ w s. s)
          (list_for-Keeps email
            (get_histories_by_event_type floats sqlite (steps E limit) event_type limit offset)
            (lean_entries E)
            (λ db.
              get_histories_by_event_type-SameTables floats sqlite T outcomes (steps E limit) limit
                offset db event_type))

    pub handle_get_history_by_date_range-Keeps :
        Keeps Sound (handle_get_history_by_date_range E payload)
    unfolding handle_get_history_by_date_range get_history_by_date_range
    handle_get_history_by_date_range-Keeps =
        let (email, s1) = read_word [] (open_stream payload) in
        let (start_raw, s2) = read_word [] s1 in
        let (end_raw, s3) = read_word [] s2 in
        let (limit, s4) = read_int (pos 10) s3 in
        let (offset, _) = read_int (pos 0) s4 in
        if-Keeps Sound
          (is_empty email
            || is_empty start_raw
            || is_empty end_raw
            || is_nonpos limit
            || is_neg offset)
          _ _ (λ w s. s)
          (list_for-Keeps email
            (get_histories_by_date_range floats sqlite (steps E limit) (day_start E start_raw)
              (day_end E end_raw) limit offset)
            (full_entries E)
            (λ db.
              get_histories_by_date_range-SameTables floats sqlite T outcomes (steps E limit) limit
                offset db (day_start E start_raw) (day_end E end_raw)))

    pub handle_get_history_by_event_type_and_date_range-Keeps :
        Keeps Sound (handle_get_history_by_event_type_and_date_range E payload)
    unfolding handle_get_history_by_event_type_and_date_range
        get_history_by_event_type_and_date_range
    handle_get_history_by_event_type_and_date_range-Keeps =
        let (email, s1) = read_word [] (open_stream payload) in
        let (event_type, s2) = read_int (pos 0) s1 in
        let (start_raw, s3) = read_word [] s2 in
        let (end_raw, s4) = read_word [] s3 in
        let (limit, s5) = read_int (pos 10) s4 in
        let (offset, _) = read_int (pos 0) s5 in
        if-Keeps Sound
          (is_empty email
            || is_empty start_raw
            || is_empty end_raw
            || is_neg event_type
            || is_nonpos limit
            || is_neg offset)
          _ _ (λ w s. s)
          (list_for-Keeps email
            (get_histories_by_event_type_and_date_range floats sqlite (steps E limit) event_type
              (day_start E start_raw) (day_end E end_raw) limit offset)
            (lean_entries E)
            (λ db.
              get_histories_by_event_type_and_date_range-SameTables floats sqlite T outcomes
                (steps E limit) limit offset db event_type (day_start E start_raw)
                (day_end E end_raw)))

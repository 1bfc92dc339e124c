-- ===== src/Server/History/Listing.antt =====
-- What the four queries of the history reply, and how their pages fit together.
use raspi_cctv_tcp_server.Prelude.{
  suc, Option, none, some, Bool, true, false, ◌&&◌, ◌||◌, List, map, Text, ℤ, pos, negsuc, ◌≡◌,
  refl, arith, find, c_str, is_empty, is_none, is_neg, is_nonpos, to_nat, if◌then◌else◌, Bool-cases,
  Option-cases, inl, inr,
}
use raspi_cctv_tcp_server.Exec.{Exec, Result, ok, fault, uncaught}
use raspi_cctv_tcp_server.Db.Model.{History}
use raspi_cctv_tcp_server.Db.Histories.{
  get_histories, get_histories_by_event_type, get_histories_by_date_range,
  get_histories_by_event_type_and_date_range,
}
use raspi_cctv_tcp_server.Db.Contract.{
  Row, Tables, UserStatements, HistoryStatements, has_email, page, of_type, in_range,
}
use raspi_cctv_tcp_server.Db.Users.Lookup.{get_user_by_email_lem}
use raspi_cctv_tcp_server.Db.Histories.Queries.{
  history_from, tidy_from, get_histories_lem, get_histories_by_event_type_lem,
  get_histories_by_date_range_lem, get_histories_by_event_type_and_date_range_lem,
}
use raspi_cctv_tcp_server.Server.Env.{Env, World}
use raspi_cctv_tcp_server.Server.Response.{Response, error, dumped}
use raspi_cctv_tcp_server.Server.Entries.{full_entries, lean_entries, document}
use raspi_cctv_tcp_server.Server.Entries.Tidying.{entries-tidy}
use raspi_cctv_tcp_server.Server.History.{
  list_for, steps, day_start, day_end, get_history, get_history_by_event_type,
  get_history_by_date_range, get_history_by_event_type_and_date_range,
}

module _ (E : Env) where
  abbrev pub finished : Option Text → Result Response
  finished none = fault uncaught
  finished (some text) = ok (dumped text)

  module _ (T : Tables E.sqlite) where
    -- The reply to a well-formed query, from the table of users and the rows of the page: an
    -- unknown user is refused; else the document is sent, or the json library throws.
    abbrev pub listing :
        Text
        → (List (Row E.floats.Double) → Option (List E.json.Value))
        → List (Row E.floats.Double)
        → World E
        → Result Response × World E
    listing email entries rows w =
        if is_none (find (has_email (c_str email)) (T.users w.db))
        then (ok (error 404 "User not found"), w)
        else (finished (document E (entries rows)), w)

    abbrev pub full_rows : List (Row E.floats.Double) → Option (List E.json.Value)
    full_rows rs = full_entries E (map (history_from E.floats) rs)

    abbrev pub lean_rows : List (Row E.floats.Double) → Option (List E.json.Value)
    lean_rows rs = lean_entries E (map (history_from E.floats) rs)

    abbrev pub in_days : Text → Text → Row E.floats.Double → Bool
    in_days a b = in_range E.sqlite T (c_str (day_start E a)) (c_str (day_end E b))

    abbrev pub invalid : World E → Result Response × World E
    invalid w = (ok (error 400 "Invalid input format"), w)

    module _ (users : UserStatements E.sqlite T) (laws : HistoryStatements E.sqlite T) where
      list_for_lem :
          (email : Text) (w : World E)
          (query : Exec E.sqlite.Connection (List (History E.floats.Float)))
          (entries : List (History E.floats.Float) → Option (List E.json.Value))
          (hs : List (History E.floats.Float))
          (shown : List (Row E.floats.Double) → Option (List E.json.Value))
          (rows : List (Row E.floats.Double))
          → query w.db ≡ (ok hs, w.db)
          → entries hs ≡ shown rows
          → list_for E email query entries w ≡ listing email shown rows w
      list_for_lem email w query entries hs shown rows h same =
          rw (get_user_by_email_lem E.sqlite T users email w.db)
            (elim (Bool-cases (is_none (find (has_email (c_str email)) (T.users w.db)))) [
              | inl unknown ↦ rw unknown refl
              | inr known ↦
                  rw (known, h, same)
                    (elim (Option-cases (document E (shown rows))) [
                      | inl throws ↦ rw throws refl
                      | inr (text, d) ↦ rw d refl
                    ])
            ])

      -- GET_HISTORY changes nothing. A missing address, a limit below 1 or a negative offset is
      -- refused with error 400, and then an unknown user with error 404; else the reply is the
      -- document of the newest rows, as many as the limit, behind as many as the offset, or the
      -- json library throws. The query does not run out of fuel.
      pub get_history_lem :
          (email : Text) (limit offset : ℤ) (w : World E)
          → get_history E email limit offset w ≡ (
              if is_empty email || is_nonpos limit || is_neg offset
              then invalid w
              else listing email full_rows
                  (page E.sqlite T (λ _. true) (to_nat limit) (to_nat offset) w.db)
                  w)
      unfolding get_history
      get_history_lem email limit offset w =
          elim (Bool-cases (is_empty email || is_nonpos limit || is_neg offset)) [
            | inl bad ↦ rw bad refl
            | inr good ↦ rw good (
                list_for_lem email w _ (full_entries E) _ full_rows _
                  (query limit offset (ground arith) (ground arith)) (refl))
          ]
        where
          query :
              (l o : ℤ)
              → is_nonpos l ≡ false
              → is_neg o ≡ false
              → get_histories E.floats E.sqlite (steps E l) l o w.db ≡ (
                ok (
                    map
                      (history_from E.floats)
                      (page E.sqlite T (λ _. true) (to_nat l) (to_nat o) w.db)),
                w.db,
              )
          query (pos l) (pos o) hl ho =
              get_histories_lem E.floats E.sqlite T laws (suc l) l o w.db (omega arith)
          query (pos l) (negsuc o) hl ho = cc
          query (negsuc l) o hl ho = cc

      -- GET_HISTORY_BY_EVENT_TYPE changes nothing. It refuses what GET_HISTORY refuses and a negative
      -- event type; else the reply is the document of the page of that type, or the json library
      -- throws.
      pub get_history_by_event_type_lem :
          (email : Text) (t : ℤ) (limit offset : ℤ) (w : World E)
          → get_history_by_event_type E email t limit offset w ≡ (
              if is_empty email || is_neg t || is_nonpos limit || is_neg offset
              then invalid w
              else listing email lean_rows
                  (page E.sqlite T (of_type E.sqlite T t) (to_nat limit) (to_nat offset) w.db)
                  w)
      unfolding get_history_by_event_type
      get_history_by_event_type_lem email t limit offset w =
          elim (Bool-cases (is_empty email || is_neg t || is_nonpos limit || is_neg offset)) [
            | inl bad ↦ rw bad refl
            | inr good ↦ rw good (
                list_for_lem email w _ (lean_entries E) _ lean_rows _
                  (query limit offset (ground arith) (ground arith)) ((entries-tidy E _).1))
          ]
        where
          query :
              (l o : ℤ)
              → is_nonpos l ≡ false
              → is_neg o ≡ false
              → get_histories_by_event_type E.floats E.sqlite (steps E l) t l o w.db ≡ (
                ok (
                    map
                      (tidy_from E.floats)
                      (page E.sqlite T (of_type E.sqlite T t) (to_nat l) (to_nat o) w.db)),
                w.db,
              )
          query (pos l) (pos o) hl ho =
              get_histories_by_event_type_lem E.floats E.sqlite T laws (suc l) l o w.db
                (omega arith) t
          query (pos l) (negsuc o) hl ho = cc
          query (negsuc l) o hl ho = cc

      -- When the bounds of the days do not read as numbers: GET_HISTORY_BY_DATE_RANGE changes
      -- nothing; it refuses what GET_HISTORY refuses and a missing day; else the reply is the
      -- document of the page of rows from the first second of the first day to the last second of
      -- the last, or the json library throws.
      pub get_history_by_date_range_lem :
          (email : Text) (a b : Text) (limit offset : ℤ) (w : World E)
          → T.reads_as_number (c_str (day_start E a)) ≡ false
          → T.reads_as_number (c_str (day_end E b)) ≡ false
          → get_history_by_date_range E email a b limit offset w ≡ (
              if is_empty email || is_empty a || is_empty b || is_nonpos limit || is_neg offset
              then invalid w
              else listing email full_rows
                  (page E.sqlite T (in_days a b) (to_nat limit) (to_nat offset) w.db)
                  w)
      unfolding get_history_by_date_range
      get_history_by_date_range_lem email a b limit offset w pa pb =
          elim (Bool-cases
            (is_empty email || is_empty a || is_empty b || is_nonpos limit || is_neg offset)) [
              | inl bad ↦ rw bad refl
              | inr good ↦ rw good (
                  list_for_lem email w _ (full_entries E) _ full_rows _
                    (query limit offset (ground arith) (ground arith)) ((entries-tidy E _).0))
            ]
        where
          query :
              (l o : ℤ)
              → is_nonpos l ≡ false
              → is_neg o ≡ false
              → get_histories_by_date_range E.floats E.sqlite
                  (steps E l)
                  (day_start E a)
                  (day_end E b)
                  l
                  o
                  w.db
                ≡ (
                  ok (
                      map
                        (tidy_from E.floats)
                        (page E.sqlite T (in_days a b) (to_nat l) (to_nat o) w.db)),
                  w.db,
                )
          query (pos l) (pos o) hl ho =
              get_histories_by_date_range_lem E.floats E.sqlite T laws (suc l) l o w.db
                (omega arith) (day_start E a) (day_end E b) pa pb
          query (pos l) (negsuc o) hl ho = cc
          query (negsuc l) o hl ho = cc

      -- When the bounds of the days do not read as numbers: the query by event type and days
      -- changes nothing; it refuses a missing address or day, a negative event type or offset and
      -- a limit below 1 with error 400, and then an unknown user with error 404; else the reply is
      -- the document of the page of rows of that type within the days, or the json library throws.
      pub get_history_by_event_type_and_date_range_lem :
          (email : Text) (t : ℤ) (a b : Text) (limit offset : ℤ) (w : World E)
          → T.reads_as_number (c_str (day_start E a)) ≡ false
          → T.reads_as_number (c_str (day_end E b)) ≡ false
          → get_history_by_event_type_and_date_range E email t a b limit offset w ≡ (
              if is_empty email
                || is_empty a
                || is_empty b
                || is_neg t
                || is_nonpos limit
                || is_neg offset
              then invalid w
              else listing email lean_rows
                  (page E.sqlite T
                    (λ r. of_type E.sqlite T t r && in_days a b r)
                    (to_nat limit)
                    (to_nat offset)
                    w.db)
                  w)
      unfolding get_history_by_event_type_and_date_range
      get_history_by_event_type_and_date_range_lem email t a b limit offset w pa pb =
          elim (Bool-cases (
            is_empty email
            || is_empty a
            || is_empty b
            || is_neg t
            || is_nonpos limit
            || is_neg offset)) [
              | inl bad ↦ rw bad refl
              | inr good ↦ rw good (
                  list_for_lem email w _ (lean_entries E) _ lean_rows _
                    (query limit offset (ground arith) (ground arith)) ((entries-tidy E _).1))
            ]
        where
          query :
              (l o : ℤ)
              → is_nonpos l ≡ false
              → is_neg o ≡ false
              → get_histories_by_event_type_and_date_range E.floats E.sqlite
                  (steps E l)
                  t
                  (day_start E a)
                  (day_end E b)
                  l
                  o
                  w.db
                ≡ (
                  ok (
                      map (tidy_from E.floats) (
                        page E.sqlite T
                          (λ r. of_type E.sqlite T t r && in_days a b r)
                          (to_nat l)
                          (to_nat o)
                          w.db)),
                  w.db,
                )
          query (pos l) (pos o) hl ho =
              get_histories_by_event_type_and_date_range_lem E.floats E.sqlite T laws (suc l) l o
                w.db (omega arith) (day_start E a) (day_end E b) pa pb t
          query (pos l) (negsuc o) hl ho = cc
          query (negsuc l) o hl ho = cc

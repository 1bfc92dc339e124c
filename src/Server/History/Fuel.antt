-- ===== src/Server/History/Fuel.antt =====
-- The commands on the history end in a value, or in a fault of a kind.
use raspi_cctv_tcp_server.Prelude.{
  suc, Option, Bool, ◌||◌, not, List, [], Text, ℤ, pos, negsuc, ◌≡◌, true, false, arith, is_empty,
  is_none, is_nonpos, is_neg,
}
use raspi_cctv_tcp_server.Exec.{Exec, Fault, or_raise, uncaught}
use raspi_cctv_tcp_server.Exec.Fuel.{
  AlwaysEndsIn, bind-EndsIn, if-EndsIn, guard-EndsIn, or_raise-EndsIn,
}
use raspi_cctv_tcp_server.Stream.{open_stream, read_word, read_int}
use raspi_cctv_tcp_server.Db.Model.{History}
use raspi_cctv_tcp_server.Db.Users.{get_user_by_email}
use raspi_cctv_tcp_server.Db.Histories.{
  create_history, get_histories, get_histories_by_event_type, get_histories_by_date_range,
  get_histories_by_event_type_and_date_range,
}
use raspi_cctv_tcp_server.Db.Histories.Steps.{create_history-EndsIn}
use raspi_cctv_tcp_server.Server.Env.{Env, on_db}
use raspi_cctv_tcp_server.Server.Env.Fuel.{Calls, on_db-EndsIn, reply_if-EndsIn, found-EndsIn}
use raspi_cctv_tcp_server.Server.Entries.{document, full_entries, lean_entries}
use raspi_cctv_tcp_server.Server.History.{
  Fields, read_fields, refused, new_history, add_history, handle_add_history, list_for, day_start,
  day_end, get_history, handle_get_history, get_history_by_event_type,
  handle_get_history_by_event_type, get_history_by_date_range, handle_get_history_by_date_range,
  get_history_by_event_type_and_date_range, handle_get_history_by_event_type_and_date_range,
}

or_true : (a b : Bool) → (a || true || b) ≡ false → ⊥
or_true a b e = ground arith

module _ (E : Env) (Q : Fault → Type 0) (calls : Calls E Q) where
  open E use {floats, sqlite, json}

  add_history-EndsIn : (f : Fields floats.Float) → AlwaysEndsIn Q (add_history E f)
  unfolding add_history
  add_history-EndsIn f =
      let create = on_db E (create_history floats sqlite (new_history E f)) in
      if-EndsIn Q (refused E f) _ _ (λ w. tt)
        (bind-EndsIn Q create _
          (on_db-EndsIn E Q (create_history floats sqlite (new_history E f))
            (create_history-EndsIn floats sqlite Q (new_history E f)))
          λ created. reply_if-EndsIn E Q (not created) _ _)

  pub handle_add_history-EndsIn : (payload : Text) → AlwaysEndsIn Q (handle_add_history E payload)
  unfolding handle_add_history
  handle_add_history-EndsIn payload w = add_history-EndsIn (read_fields E w.stale_int payload) w

  list_for-EndsIn :
      (email : Text) (query : Exec sqlite.Connection (List (History floats.Float)))
      (entries : List (History floats.Float) → Option (List json.Value))
      → AlwaysEndsIn Q query
      → AlwaysEndsIn Q (list_for E email query entries)
  list_for-EndsIn email query entries h =
      bind-EndsIn Q (on_db E (get_user_by_email sqlite email)) _ (found-EndsIn E Q calls email)
        λ found.
          if-EndsIn Q (is_none found) _ _ (λ w. tt)
            (bind-EndsIn Q (on_db E query) _ (on_db-EndsIn E Q query h) λ history.
              bind-EndsIn Q (or_raise uncaught (document E (entries history))) _
                (or_raise-EndsIn Q (document E (entries history)) calls.throws) (λ text w. tt))

  module _ (email : Text) (offset : ℤ) where
    get_history-EndsIn : (limit : ℤ) → AlwaysEndsIn Q (get_history E email limit offset)
    unfolding get_history
    get_history-EndsIn (pos n) =
        if-EndsIn Q (is_empty email || is_nonpos (pos n) || is_neg offset) _ _ (λ w. tt)
          (list_for-EndsIn email (get_histories floats sqlite (suc n) (pos n) offset)
            (full_entries E) (calls.all n offset))
    get_history-EndsIn (negsuc n) =
        guard-EndsIn Q (is_empty email || is_nonpos (negsuc n) || is_neg offset) _ _ (λ w. tt)
          (λ e. absurd (or_true (is_empty email) (is_neg offset) e))

    get_history_by_event_type-EndsIn :
        (t limit : ℤ) → AlwaysEndsIn Q (get_history_by_event_type E email t limit offset)
    unfolding get_history_by_event_type
    get_history_by_event_type-EndsIn t (pos n) =
        if-EndsIn Q (is_empty email || is_neg t || is_nonpos (pos n) || is_neg offset) _ _ (λ w. tt)
          (list_for-EndsIn email
            (get_histories_by_event_type floats sqlite (suc n) t (pos n) offset) (lean_entries E)
            (calls.by_type n offset t))
    get_history_by_event_type-EndsIn t (negsuc n) =
        guard-EndsIn Q (is_empty email || is_neg t || is_nonpos (negsuc n) || is_neg offset) _ _
          (λ w. tt)
          (λ e. absurd (or_true (is_empty email || is_neg t) (is_neg offset) (ground arith)))

    get_history_by_date_range-EndsIn :
        (a b : Text) (limit : ℤ)
        → AlwaysEndsIn Q (get_history_by_date_range E email a b limit offset)
    unfolding get_history_by_date_range
    get_history_by_date_range-EndsIn a b (pos n) =
        if-EndsIn Q
          (is_empty email || is_empty a || is_empty b || is_nonpos (pos n) || is_neg offset) _ _
          (λ w. tt)
          (list_for-EndsIn email
            (get_histories_by_date_range floats sqlite (suc n) (day_start E a) (day_end E b) (pos n)
              offset)
            (full_entries E) (calls.by_dates n offset (day_start E a) (day_end E b)))
    get_history_by_date_range-EndsIn a b (negsuc n) =
        guard-EndsIn Q
          (is_empty email || is_empty a || is_empty b || is_nonpos (negsuc n) || is_neg offset) _ _
          (λ w. tt)
          (λ e.
            absurd
              (or_true (is_empty email || is_empty a || is_empty b) (is_neg offset) (ground arith)))

    get_history_by_event_type_and_date_range-EndsIn :
        (t : ℤ) (a b : Text) (limit : ℤ)
        → AlwaysEndsIn Q (get_history_by_event_type_and_date_range E email t a b limit offset)
    unfolding get_history_by_event_type_and_date_range
    get_history_by_event_type_and_date_range-EndsIn t a b (pos n) =
        if-EndsIn Q
          (is_empty email
            || is_empty a
            || is_empty b
            || is_neg t
            || is_nonpos (pos n)
            || is_neg offset)
          _ _ (λ w. tt)
          (list_for-EndsIn email
            (get_histories_by_event_type_and_date_range floats sqlite (suc n) t (day_start E a)
              (day_end E b) (pos n) offset)
            (lean_entries E) (calls.by_type_and_dates n offset t (day_start E a) (day_end E b)))
    get_history_by_event_type_and_date_range-EndsIn t a b (negsuc n) =
        guard-EndsIn Q
          (is_empty email
            || is_empty a
            || is_empty b
            || is_neg t
            || is_nonpos (negsuc n)
            || is_neg offset)
          _ _ (λ w. tt)
          (λ e. absurd (
            or_true (is_empty email || is_empty a || is_empty b || is_neg t) (is_neg offset)
              (ground arith)))

  module _ (payload : Text) where
    pub handle_get_history-EndsIn : AlwaysEndsIn Q (handle_get_history E payload)
    unfolding handle_get_history
    handle_get_history-EndsIn =
        let (email, s1) = read_word [] (open_stream payload) in
        let (limit, s2) = read_int (pos 10) s1 in
        let (offset, _) = read_int (pos 0) s2 in get_history-EndsIn email offset limit

    pub handle_get_history_by_event_type-EndsIn :
        AlwaysEndsIn Q (handle_get_history_by_event_type E payload)
    unfolding handle_get_history_by_event_type
    handle_get_history_by_event_type-EndsIn =
        let (email, s1) = read_word [] (open_stream payload) in
        let (event_type, s2) = read_int (pos 0) s1 in
        let (limit, s3) = read_int (pos 10) s2 in
        let (offset, _) = read_int (pos 0) s3 in
        get_history_by_event_type-EndsIn email offset event_type limit

    pub handle_get_history_by_date_range-EndsIn :
        AlwaysEndsIn Q (handle_get_history_by_date_range E payload)
    unfolding handle_get_history_by_date_range
    handle_get_history_by_date_range-EndsIn =
        let (email, s1) = read_word [] (open_stream payload) in
        let (start_raw, s2) = read_word [] s1 in
        let (end_raw, s3) = read_word [] s2 in
        let (limit, s4) = read_int (pos 10) s3 in
        let (offset, _) = read_int (pos 0) s4 in
        get_history_by_date_range-EndsIn email offset start_raw end_raw limit

    pub handle_get_history_by_event_type_and_date_range-EndsIn :
        AlwaysEndsIn Q (handle_get_history_by_event_type_and_date_range E payload)
    unfolding handle_get_history_by_event_type_and_date_range
    handle_get_history_by_event_type_and_date_range-EndsIn =
        let (email, s1) = read_word [] (open_stream payload) in
        let (event_type, s2) = read_int (pos 0) s1 in
        let (start_raw, s3) = read_word [] s2 in
        let (end_raw, s4) = read_word [] s3 in
        let (limit, s5) = read_int (pos 10) s4 in
        let (offset, _) = read_int (pos 0) s5 in
        get_history_by_event_type_and_date_range-EndsIn email offset event_type start_raw end_raw
          limit

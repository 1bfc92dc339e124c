-- ===== src/Server/History/Adding.antt =====
-- What ADD_HISTORY writes.
use raspi_cctv_tcp_server.Prelude.{
  some, true, false, ◌||◌, List, [], ◌∷◌, ◌++◌, Text, pos, ◌≡◌, refl, arith, All, All-append, c_str,
  is_int, if◌then◌else◌, Bool-cases, inl, inr,
}
use raspi_cctv_tcp_server.Exec.{Result, ok}
use raspi_cctv_tcp_server.Db.Contract.{Row, Tables, HistoryStatements}
use raspi_cctv_tcp_server.Db.Histories.Queries.{create_history_lem, row_of}
use raspi_cctv_tcp_server.Server.Env.{Env, World}
use raspi_cctv_tcp_server.Server.Response.{Response, error, success}
use raspi_cctv_tcp_server.Server.History.{
  Fields, refused, new_history, add_history, read_fields, handle_add_history,
}

module _ (E : Env) where
  -- A row that only the types and speeds that the program knows can have.
  abbrev pub SoundRow : Row E.floats.Double → Type 0
  SoundRow r =
      ((is_int r.event_type 0 || is_int r.event_type 1 || is_int r.event_type 2) ≡ true)
      × ((v : E.floats.Double) → r.speed ≡ some v → r.event_type ≡ pos 1)

  add_refused :
      (f : Fields E.floats.Float) (w : World E)
      → refused E f ≡ true
      → add_history E f w ≡ (ok (error 400 "Invalid input format"), w)
  unfolding add_history
  add_refused f w h = ground arith

  module _ (T : Tables E.sqlite) (laws : HistoryStatements E.sqlite T) where
    -- What an addition leaves: the reply, the rows, and everything else as it was.
    pub record Added (r : Response) (rs : List (Row E.floats.Double)) (w : World E)
        (o : Result Response × World E) : Type 0 where
      pub reply : o.0 ≡ ok r
      pub rows : T.rows o.1.db ≡ rs
      pub users : T.users o.1.db ≡ T.users w.db
      pub disk : o.1.disk ≡ w.disk

    abbrev pub added_row : Fields E.floats.Float → World E → Row E.floats.Double
    added_row f w = row_of E.floats E.sqlite T laws w.db (new_history E f)

    abbrev pub Adds : Fields E.floats.Float → World E → Result Response × World E → Type 0
    Adds f w o =
        if refused E f
        then Added (error 400 "Invalid input format") (T.rows w.db) w o
        else Added (success 200 "History created successfully") (T.rows w.db ++ added_row f w ∷ [])
            w o

    pub add_accepted :
        (f : Fields E.floats.Float) (w : World E)
        → refused E f ≡ false
        → T.reads_as_number (c_str (new_history E f).date) ≡ false
        → Added
            (success 200 "History created successfully")
            (T.rows w.db ++ added_row f w ∷ [])
            w
            (add_history E f w)
    unfolding add_history
    add_accepted f w h plain =
        let (r, rs, us) =
          create_history_lem E.floats E.sqlite T laws (new_history E f) w.db plain in
        rw (h, r) (record { reply = refl; rows = rs; users = us; disk = refl })

    pub handle_add_history-Adds :
        (payload : Text) (w : World E)
        → T.reads_as_number (c_str (new_history E (read_fields E w.stale_int payload)).date) ≡ false
        → Adds (read_fields E w.stale_int payload) w (handle_add_history E payload w)
    handle_add_history-Adds payload w plain =
        unfold handle_add_history in added (read_fields E w.stale_int payload) plain
      where
        added :
            (f : Fields E.floats.Float)
            → T.reads_as_number (c_str (new_history E f).date) ≡ false
            → Adds f w (add_history E f w)
        added f plain = elim (Bool-cases (refused E f)) [
          | inl h ↦
              rw (h, add_refused f w h)
                (record { reply = refl; rows = refl; users = refl; disk = refl })
          | inr h ↦ rw h (add_accepted f w h plain)
        ]

    added_row-SoundRow :
        (f : Fields E.floats.Float) (w : World E) → refused E f ≡ false → SoundRow (added_row f w)
    added_row-SoundRow f w h = (ground arith, λ v e. ground arith)

    -- When the date of the line does not read as a number: if every row has event type 0, 1 or 2,
    -- and a speed only with type 1, then so has every row after ADD_HISTORY, whatever the line.
    pub handle_add_history-SoundRow :
        (payload : Text) (w : World E)
        → T.reads_as_number (c_str (new_history E (read_fields E w.stale_int payload)).date) ≡ false
        → All SoundRow (T.rows w.db)
        → All SoundRow (T.rows (handle_add_history E payload w).1.db)
    handle_add_history-SoundRow payload w plain sound =
        kept (read_fields E w.stale_int payload) _ (handle_add_history-Adds payload w plain)
      where
        kept :
            (f : Fields E.floats.Float) (o : Result Response × World E)
            → Adds f w o
            → All SoundRow (T.rows o.1.db)
        kept f o a = elim (Bool-cases (refused E f)) [
          | inl h ↦ rw ((rw h at a).rows) sound
          | inr h ↦
              rw ((rw h at a).rows)
                (All-append SoundRow (T.rows w.db) _ sound (added_row-SoundRow f w h, tt))
        ]

-- ===== src/Tests/Rows.antt =====
-- The history: the theorems on its handlers at concrete payloads.
use raspi_cctv_tcp_server.Prelude.{
  text_eq, true, false, ◌++◌, arith, ◌&&◌, [], ◌∷◌, map, Text, pos, codes, ◌≡◌, refl, All, has_char,
  c_str,
}
use raspi_cctv_tcp_server.Exec.{ok}
use raspi_cctv_tcp_server.Stream.{read_word, read_int}
use raspi_cctv_tcp_server.Stream.Words.{NotChar}
use raspi_cctv_tcp_server.Db.Contract.{page, of_type}
use raspi_cctv_tcp_server.Db.Histories.Queries.{history_from, tidy_from}
use raspi_cctv_tcp_server.Db.Memory.{memory, tables}
use raspi_cctv_tcp_server.Db.Memory.Users.{user_statements}
use raspi_cctv_tcp_server.Db.Memory.Rows.{history_statements}
use raspi_cctv_tcp_server.Server.Entries.{full_entries, lean_entries}
use raspi_cctv_tcp_server.Server.Entries.Tidying.{entries-tidy}
use raspi_cctv_tcp_server.Server.Response.{success}
use raspi_cctv_tcp_server.Server.Commands.{handle}
use raspi_cctv_tcp_server.Server.Commands.Lines.{line, add_history}
use raspi_cctv_tcp_server.Server.History.RoundTrip.{ListsAll, get_history-add_history}
use raspi_cctv_tcp_server.Server.History.{
  refused, read_fields, get_history, get_history_by_event_type, get_history_by_date_range,
  get_history_by_event_type_and_date_range,
}
use raspi_cctv_tcp_server.Server.History.Adding.{SoundRow, added_row}
use raspi_cctv_tcp_server.Server.History.Listing.{
  listing, full_rows, lean_rows, in_days, get_history_lem, get_history_by_event_type_lem,
  get_history_by_date_range_lem, get_history_by_event_type_and_date_range_lem,
}
use raspi_cctv_tcp_server.Tests.Sample.{env, whole_numbers, world, ann, ann_user, parked, sped}

abbrev event : Text
event = codes "2025-06-03_11:00:00 images/e.jpg 56C7890 1 images/f.jpg images/g.jpg 9"

pub world-SoundRow : All (SoundRow env) (tables.rows world.db)
world-SoundRow = ((refl, λ v e. cc), ((refl, λ v e. refl), tt))

-- A line with the fields that are required, and no more.
abbrev short_event : Text
short_event = codes "1:2 i p 0"

short_event-clean : All (NotChar 10) short_event
short_event-clean = (refl, (refl, (refl, (refl, (refl, (refl, (refl, (refl, (refl, tt)))))))))

short_event-accepted : refused env (read_fields env world.stale_int short_event) ≡ false
unfolding read_fields read_word read_int
short_event-accepted = refl

get_history-add_history_example :
    let row =
      added_row env tables history_statements (read_fields env world.stale_int short_event) world in
    let o = handle env (line env add_history short_event) world in
    (o.0 ≡ ok (success 200 "History created successfully"))
    × ListsAll env tables user_statements history_statements
        (tables.rows world.db ++ row ∷ [])
        o.1
        (get_history env ann (pos 3) (pos 0) o.1)
unfolding has_char c_str read_fields read_word text_eq
get_history-add_history_example =
    get_history-add_history env tables user_statements history_statements short_event world
      short_event-clean short_event-accepted refl ann 3 ann_user refl refl (omega arith)

abbrev first_day : Text
first_day = codes "2025-06-01"

get_history_lem_example :
    get_history env ann (pos 10) (pos 0) world
    ≡ listing env tables ann
        (full_rows env tables)
        (page memory tables (λ _. true) 10 0 world.db)
        world
get_history_lem_example =
    get_history_lem env tables user_statements history_statements ann (pos 10) (pos 0) world

get_history_by_event_type_lem_example :
    get_history_by_event_type env ann (pos 1) (pos 10) (pos 0) world
    ≡ listing env tables ann
        (lean_rows env tables)
        (page memory tables (of_type memory tables (pos 1)) 10 0 world.db)
        world
get_history_by_event_type_lem_example =
    get_history_by_event_type_lem env tables user_statements history_statements ann (pos 1) (pos 10)
      (pos 0) world

get_history_by_date_range_lem_example :
    get_history_by_date_range env ann first_day first_day (pos 10) (pos 0) world
    ≡ listing env tables ann
        (full_rows env tables)
        (page memory tables (in_days env tables first_day first_day) 10 0 world.db)
        world
unfolding has_char c_str
get_history_by_date_range_lem_example =
    get_history_by_date_range_lem env tables user_statements history_statements ann first_day
      first_day (pos 10) (pos 0) world refl refl

get_history_by_event_type_and_date_range_lem_example :
    get_history_by_event_type_and_date_range env ann
      (pos 0)
      first_day
      first_day
      (pos 10)
      (pos 0)
      world
    ≡ listing env tables ann
        (lean_rows env tables)
        (page memory tables
          (λ r. of_type memory tables (pos 0) r && in_days env tables first_day first_day r)
          10
          0
          world.db)
        world
unfolding has_char c_str
get_history_by_event_type_and_date_range_lem_example =
    get_history_by_event_type_and_date_range_lem env tables user_statements history_statements ann
      (pos 0) first_day first_day (pos 10) (pos 0) world refl refl

entries-tidy_example :
    (full_entries env (map (tidy_from whole_numbers) (parked ∷ sped ∷ []))
      ≡ full_entries env (map (history_from whole_numbers) (parked ∷ sped ∷ [])))
    × (lean_entries env (map (tidy_from whole_numbers) (parked ∷ sped ∷ []))
        ≡ lean_entries env (map (history_from whole_numbers) (parked ∷ sped ∷ [])))
entries-tidy_example = entries-tidy env (parked ∷ sped ∷ [])

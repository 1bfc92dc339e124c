-- ===== src/Server/Entries/Tidying.antt =====
-- The repository blanks the fields that an event type does not use, and the handlers choose the
-- fields by event type again.
use raspi_cctv_tcp_server.Prelude.{List, [], ◌∷◌, map, ◌≡◌, refl, arith}
use raspi_cctv_tcp_server.Db.Model.{History}
use raspi_cctv_tcp_server.Db.Histories.{tidy}
use raspi_cctv_tcp_server.Db.Contract.{Row}
use raspi_cctv_tcp_server.Db.Histories.Queries.{history_from, tidy_from}
use raspi_cctv_tcp_server.Server.Env.{Env}
use raspi_cctv_tcp_server.Server.Entries.{full_entry, lean_entry, full_entries, lean_entries}

module _ (E : Env) where
  full_entry-tidy : (h : History E.floats.Float) → full_entry E (tidy h) ≡ full_entry E h
  unfolding full_entry tidy
  full_entry-tidy h = ground arith

  lean_entry-tidy : (h : History E.floats.Float) → lean_entry E (tidy h) ≡ lean_entry E h
  unfolding lean_entry tidy
  lean_entry-tidy h = ground arith

  -- The entries of rows, in both forms, are the same whether or not the repository has blanked the
  -- fields that an event type does not use.
  pub entries-tidy :
      (rs : List (Row E.floats.Double))
      → (full_entries E (map (tidy_from E.floats) rs)
          ≡ full_entries E (map (history_from E.floats) rs))
        × (lean_entries E (map (tidy_from E.floats) rs)
            ≡ lean_entries E (map (history_from E.floats) rs))
  unfolding lean_entries
  entries-tidy [] = (refl, refl)
  entries-tidy (r ∷ rs) =
      let (full, lean) = entries-tidy rs in
      (
        cc (full_entry-tidy (history_from E.floats r), full),
        rw (lean_entry-tidy (history_from E.floats r), lean) refl,
      )

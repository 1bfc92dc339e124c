-- ===== src/Tests/Additions.antt =====
-- Events that two clients add: the theorem on their order at two concrete events.
use mathlib.Core.List.Perm
use mathlib.Core.Quot
use raspi_cctv_tcp_server.Prelude.{[], ◌∷◌, ◌++◌, map, pos, codes, ◌≡◌, refl, has_char, c_str}
use raspi_cctv_tcp_server.Db.Memory.{tables}
use raspi_cctv_tcp_server.Db.Memory.Rows.{history_statements}
use raspi_cctv_tcp_server.Server.History.{Fields}
use raspi_cctv_tcp_server.Server.History.Order.{
  add_all, unnumbered, event, events, Bag, IsEvent, add_all_comm,
}
use raspi_cctv_tcp_server.Tests.Sample.{env, world}
use raspi_cctv_tcp_server.Prelude.{ℕ}

abbrev speeding : Fields ℕ
speeding = record {
  raw_date = codes "2025-06-03_11:00:00";
  image_path = codes "images/e.jpg";
  plate_number = codes "56C7890";
  event_type = pos 1;
  start_snapshot = [];
  end_snapshot = [];
  speed = 90;
}

abbrev child : Fields ℕ
child = record {
  raw_date = codes "2025-06-03_11:00:01";
  image_path = codes "images/h.jpg";
  plate_number = codes "none";
  event_type = pos 2;
  start_snapshot = [];
  end_snapshot = [];
  speed = 0;
}

speeding-IsEvent : IsEvent env tables history_statements speeding
unfolding has_char c_str
speeding-IsEvent = record { accepted = refl; plain = refl }

child-IsEvent : IsEvent env tables history_statements child
unfolding has_char c_str
child-IsEvent = record { accepted = refl; plain = refl }

add_all_comm_example :
    ◌≡◌ {A = Bag env}
      (events env tables history_statements (add_all env (speeding ∷ child ∷ []) world))
      (Quot.mk
        (map (unnumbered env) (tables.rows world.db) ++ map (event env) (speeding ∷ child ∷ [])))
    × (◌≡◌ {A = Bag env}
        (events env tables history_statements (add_all env (child ∷ speeding ∷ []) world))
        (events env tables history_statements (add_all env (speeding ∷ child ∷ []) world)))
add_all_comm_example =
    add_all_comm env tables history_statements (speeding ∷ child ∷ []) (child ∷ speeding ∷ []) world
      (speeding-IsEvent, (child-IsEvent, tt)) (child-IsEvent, (speeding-IsEvent, tt))
      (Perm.swap _ _ _)

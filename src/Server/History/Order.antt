-- ===== src/Server/History/Order.antt =====
-- The history as a bag of events: what additions come to when clients send them in some order.
use mathlib.Core.List.{Perm}
use mathlib.Core.List.Perm
use mathlib.Core.Quot
use mathlib.Core.Quot.{Quot}
use raspi_cctv_tcp_server.Prelude.{
  false, some, List, [], ◌∷◌, ◌++◌, map, map-append, append-nil, append_assoc, pos, ◌≡◌, sym, ap,
  ◌∙◌, All, c_str,
}
use raspi_cctv_tcp_server.Db.Contract.{Row, Tables, HistoryStatements}
use raspi_cctv_tcp_server.Db.Histories.Queries.{widened}
use raspi_cctv_tcp_server.Server.Env.{Env, World}
use raspi_cctv_tcp_server.Server.History.Adding.{add_accepted}
use raspi_cctv_tcp_server.Server.History.{Fields, refused, new_history, add_history}

module _ (E : Env) where
  -- Additions, one after the other, from lines that have been read.
  abbrev pub add_all : List (Fields E.floats.Float) → World E → World E
  add_all [] w = w
  add_all (f ∷ fs) w = add_all fs (add_history E f w).1

  abbrev pub unnumbered : Row E.floats.Double → Row E.floats.Double
  unnumbered r = record r { id = pos 0 }

  -- The row of a line, but for its number.
  abbrev pub event : Fields E.floats.Float → Row E.floats.Double
  event f =
      let h = new_history E f in
      record {
        id = pos 0;
        date = c_str h.date;
        image_path = c_str h.image_path;
        plate_number = c_str h.plate_number;
        event_type = h.event_type;
        start_snapshot = some (c_str h.start_snapshot);
        end_snapshot = some (c_str h.end_snapshot);
        speed = widened E.floats h.speed;
      }

  -- Rows of which neither the order nor the numbers count.
  abbrev pub Bag : Type 0
  Bag = Quot (Perm {A = Row E.floats.Double})

  module _ (T : Tables E.sqlite) (laws : HistoryStatements E.sqlite T) where
    abbrev pub events : World E → Bag
    events w = Quot.mk (map unnumbered (T.rows w.db))

    -- A line that is not refused, with a date that does not read as a number.
    pub record IsEvent (f : Fields E.floats.Float) : Type 0 where
      pub accepted : refused E f ≡ false
      pub plain : T.reads_as_number (c_str (new_history E f).date) ≡ false

    rows-add_all :
        (fs : List (Fields E.floats.Float)) (w : World E)
        → All IsEvent fs
        → map unnumbered (T.rows (add_all fs w).db) ≡ map unnumbered (T.rows w.db) ++ map event fs
    rows-add_all [] w h = sym (append-nil _)
    rows-add_all (f ∷ fs) w (e, h) =
        let a = add_accepted E T laws f w e.accepted e.plain in
        rows-add_all fs (add_history E f w).1 h
        ∙ ap (λ (rs : List (Row E.floats.Double)). map unnumbered rs ++ map event fs) a.rows
        ∙ ap (λ (rs : List (Row E.floats.Double)). rs ++ map event fs)
            (map-append unnumbered (T.rows w.db) _)
        ∙ append_assoc (map unnumbered (T.rows w.db)) (event f ∷ []) (map event fs)

    -- Let several clients add events, by lines that are not refused and whose dates do not read as
    -- numbers. In whatever order the additions are made, the history holds the same events, as a
    -- bag: those it held before and one for each line. None is lost, doubled or mixed up.
    pub add_all_comm :
        (fs gs : List (Fields E.floats.Float)) (w : World E)
        → All IsEvent fs
        → All IsEvent gs
        → Perm fs gs
        → (events (add_all fs w) ≡ Quot.mk (map unnumbered (T.rows w.db) ++ map event fs))
          × (events (add_all gs w) ≡ events (add_all fs w))
    add_all_comm fs gs w hf hg p =
        let old = map unnumbered (T.rows w.db) in
        let with_fs : events (add_all fs w) ≡ Quot.mk (old ++ map event fs) =
          ap Quot.mk (rows-add_all fs w hf) in
        let with_gs : events (add_all gs w) ≡ Quot.mk (old ++ map event gs) =
          ap Quot.mk (rows-add_all gs w hg) in
        (
          with_fs,
          with_gs ∙ sym (Quot.sound (Perm.append_left old (Perm.map event p))) ∙ sym with_fs,
        )

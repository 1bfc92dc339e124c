-- ===== src/Db/Histories/Listed.antt =====
-- What a page of the history holds.
use mathlib.Core.List.{Perm, Permᴰ}
use mathlib.Core.List as L
use mathlib.Core.Logic.{∥∥₁_elim}
use raspi_cctv_tcp_server.Prelude.{
  ℕ, suc, ◌≤◌, ◌<◌, Bool, true, false, ◌&&◌, List, [], ◌∷◌, map, Text, ℤ, pos, c_str, ◌≡◌, refl,
  ◌∙◌, arith, length, take, drop, filter, length-take_le, All, All-take, All-drop,
}
use raspi_cctv_tcp_server.Exec.{ok}
use raspi_cctv_tcp_server.Floats.{Floats}
use raspi_cctv_tcp_server.Db.Sqlite.{Sqlite}
use raspi_cctv_tcp_server.Db.Contract.{
  Row, Tables, HistoryStatements, page, of_type, in_range, IsNewestFirst,
}
use raspi_cctv_tcp_server.Db.Histories.{get_histories_by_event_type_and_date_range}
use raspi_cctv_tcp_server.Db.Histories.Queries.{
  tidy_from, get_histories_by_event_type_and_date_range_lem,
}

and_swap : (x y z : Bool) → (x && (y && z)) ≡ (y && (x && z))
and_swap x y z = ground arith

module _ {A : Type 0} (p : A → Bool) where
  abbrev all_of : List A → Bool
  all_of [] = true
  all_of (x ∷ xs) = p x && all_of xs

  all_of-permuted : {xs ys : List A} → Permᴰ xs ys → all_of xs ≡ all_of ys
  all_of-permuted L.Permᴰ.nil = refl
  all_of-permuted (L.Permᴰ.cons e d) = cc (e, all_of-permuted d)
  all_of-permuted (L.Permᴰ.swap {a} {b} {a'} {b'} {l} e e') =
      rw (e, e') (and_swap (p b') (p a') (all_of l))
  all_of-permuted (L.Permᴰ.trans d d') = all_of-permuted d ∙ all_of-permuted d'

  all_of-Perm : (xs ys : List A) → Perm xs ys → all_of xs ≡ all_of ys
  all_of-Perm xs ys h = ∥∥₁_elim h (hlevel) all_of-permuted

  all_of-filter : (xs : List A) → all_of (filter p xs) ≡ true
  all_of-filter [] = refl
  all_of-filter (x ∷ xs) = ground (arith, all_of-filter xs)

  all_of-All : (xs : List A) → all_of xs ≡ true → All (λ x. p x ≡ true) xs
  all_of-All [] h = tt
  all_of-All (x ∷ xs) h = (ground arith, all_of-All xs (ground arith))

module _ {D : Type 0} (S : Sqlite D) (T : Tables S) where
  IsNewestFirst-take :
      (n : ℕ) (rs : List (Row D)) → IsNewestFirst S T rs → IsNewestFirst S T (take n rs)
  IsNewestFirst-take ℕ.zero rs h = tt
  IsNewestFirst-take (suc n) [] h = tt
  IsNewestFirst-take (suc n) (r ∷ rs) (first, h) =
      (All-take _ n rs first, IsNewestFirst-take n rs h)

  IsNewestFirst-drop :
      (n : ℕ) (rs : List (Row D)) → IsNewestFirst S T rs → IsNewestFirst S T (drop n rs)
  IsNewestFirst-drop ℕ.zero rs h = h
  IsNewestFirst-drop (suc n) [] h = tt
  IsNewestFirst-drop (suc n) (r ∷ rs) (first, h) = IsNewestFirst-drop n rs h

module _ (F : Floats) (S : Sqlite F.Double) (T : Tables S) (laws : HistoryStatements S T) where
  page-All :
      (p : Row F.Double → Bool) (limit offset : ℕ) (db : S.Connection)
      → All (λ r. p r ≡ true) (page S T p limit offset db)
  page-All p limit offset db =
      let rs = filter p (T.rows db) in
      All-take _ limit _ (
        All-drop _ offset _ (
          all_of-All p (T.newest_first rs)
            (all_of-Perm p _ _ (laws.newest_first-perm rs) ∙ all_of-filter p (T.rows db))))

  page-IsNewestFirst :
      (p : Row F.Double → Bool) (limit offset : ℕ) (db : S.Connection)
      → IsNewestFirst S T (page S T p limit offset db)
  page-IsNewestFirst p limit offset db =
      IsNewestFirst-take S T limit _
        (IsNewestFirst-drop S T offset _ (laws.newest_first-IsNewestFirst (filter p (T.rows db))))

  -- The query by event type and days, with fuel for its limit and bounds that do not read as
  -- numbers, gives what it makes of rows that all have the event type and a date between the
  -- bounds, newest first, and no more of them than the limit; it changes nothing.
  pub get_histories_by_event_type_and_date_range-IsNewestFirst :
      (fuel limit offset : ℕ) (db : S.Connection) (t : ℤ) (a b : Text)
      → limit < fuel
      → T.reads_as_number (c_str a) ≡ false
      → T.reads_as_number (c_str b) ≡ false
      → (rs : List (Row F.Double)) × (get_histories_by_event_type_and_date_range F S fuel t a b
            (pos limit)
            (pos offset)
            db
          ≡ (ok (map (tidy_from F) rs), db))
        × All (λ r. (of_type S T t r && in_range S T (c_str a) (c_str b) r) ≡ true) rs
        × IsNewestFirst S T rs
        × (length rs ≤ limit)
  get_histories_by_event_type_and_date_range-IsNewestFirst fuel limit offset db t a b enough pa pb =
      let p : Row F.Double → Bool = λ r. of_type S T t r && in_range S T (c_str a) (c_str b) r in
      (
        page S T p limit offset db,
        get_histories_by_event_type_and_date_range_lem F S T laws fuel limit offset db enough a b pa
            pb t,
        page-All p limit offset db,
        page-IsNewestFirst p limit offset db,
        length-take_le limit (drop offset (T.newest_first (filter p (T.rows db)))),
      )

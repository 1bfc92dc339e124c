-- ===== src/Server/History/RoundTrip.antt =====
-- An event that was added is listed.
use mathlib.Core.List.{Perm, Permᴰ}
use mathlib.Core.List as L
use mathlib.Core.Logic.{∥∥₁_elim}
use raspi_cctv_tcp_server.Prelude.{
  ℕ, suc, ◌<◌, ◌≤◌, ◌+◌, some, true, false, List, [], ◌∷◌, ◌++◌, Text, pos, ◌≡◌, refl, ap, sym,
  subst, ◌∙◌, arith, All, c_str, find, filter, take, take_all, length, length-append, is_empty,
  is_nonpos,
}
use raspi_cctv_tcp_server.Exec.{Result, ok}
use raspi_cctv_tcp_server.Stream.Words.{NotChar}
use raspi_cctv_tcp_server.Db.Model.{User}
use raspi_cctv_tcp_server.Db.Contract.{
  Row, Tables, UserStatements, HistoryStatements, IsNewestFirst, has_email, page,
}
use raspi_cctv_tcp_server.Server.Env.{Env, World}
use raspi_cctv_tcp_server.Server.Response.{Response, success}
use raspi_cctv_tcp_server.Server.Entries.{document}
use raspi_cctv_tcp_server.Server.Commands.{handle}
use raspi_cctv_tcp_server.Server.Commands.Lines
use raspi_cctv_tcp_server.Server.Commands.Lines.{line, handle-line}
use raspi_cctv_tcp_server.Server.History.Adding.{Added, added_row, handle_add_history-Adds}
use raspi_cctv_tcp_server.Server.History.Listing.{full_rows, finished, get_history_lem}
use raspi_cctv_tcp_server.Server.History.{
  read_fields, refused, new_history, get_history, handle_add_history,
}

module _ {A : Type 0} where
  length-permuted : {xs ys : List A} → Permᴰ xs ys → length xs ≡ length ys
  length-permuted L.Permᴰ.nil = refl
  length-permuted (L.Permᴰ.cons e d) = ap suc (length-permuted d)
  length-permuted (L.Permᴰ.swap e e') = refl
  length-permuted (L.Permᴰ.trans d d') = length-permuted d ∙ length-permuted d'

  length-Perm : (xs ys : List A) → Perm xs ys → length xs ≡ length ys
  length-Perm xs ys h = ∥∥₁_elim h (hlevel) length-permuted

  filter_all : (xs : List A) → filter (λ _. true) xs ≡ xs
  filter_all [] = refl
  filter_all (x ∷ xs) = ap (λ (ys : List A). x ∷ ys) (filter_all xs)

module _ (E : Env) (T : Tables E.sqlite) (users : UserStatements E.sqlite T)
    (laws : HistoryStatements E.sqlite T) where
  -- A page from the start that is long enough is the whole history.
  whole_page :
      (n : ℕ) (db : E.sqlite.Connection)
      → length (T.rows db) ≤ n
      → page E.sqlite T (λ _. true) n 0 db ≡ T.newest_first (T.rows db)
  whole_page n db h =
      ap (λ (rs : List (Row E.floats.Double)). take n (T.newest_first rs)) (filter_all (T.rows db))
      ∙ take_all n (T.newest_first (T.rows db))
          (omega (arith, length-Perm _ _ (laws.newest_first-perm (T.rows db)), h))

  -- The listing of all of these rows, newest first, each once, in a state that it leaves alone.
  pub record ListsAll (rs : List (Row E.floats.Double)) (w : World E)
      (o : Result Response × World E) : Type 0 where
    pub shown : List (Row E.floats.Double)
    pub all : Perm shown rs
    pub newest_first : IsNewestFirst E.sqlite T shown
    pub lists : o ≡ (finished E (document E (full_rows E T shown)), w)

  get_history-ListsAll :
      (email : Text) (n : ℕ) (u : User) (rs : List (Row E.floats.Double)) (w : World E)
      → is_empty email ≡ false
      → find (has_email (c_str email)) (T.users w.db) ≡ some u
      → T.rows w.db ≡ rs
      → length rs ≤ n
      → 0 < n
      → ListsAll rs w (get_history E email (pos n) (pos 0) w)
  get_history-ListsAll email n u rs w filled known same fits some_room = record {
    shown = T.newest_first rs;
    all = laws.newest_first-perm rs;
    newest_first = laws.newest_first-IsNewestFirst rs;
    lists =
        get_history_lem E T users laws email (pos n) (pos 0) w
        ∙ rw (filled, positive n some_room, known, whole_page n w.db (rw same fits), same) refl;
  }
    where
      positive : (m : ℕ) → 0 < m → is_nonpos (pos m) ≡ false
      positive m h = ground arith

  module _ (payload : Text) (w : World E) (clean : All (NotChar 10) payload)
      (accepted : refused E (read_fields E w.stale_int payload) ≡ false)
      (plain : T.reads_as_number (c_str (new_history E (read_fields E w.stale_int payload)).date)
        ≡ false) where
    added :
        Added E T laws
          (success 200 "History created successfully")
          (T.rows w.db ++ added_row E T laws (read_fields E w.stale_int payload) w ∷ [])
          w
          (handle_add_history E payload w)
    added = rw accepted at (handle_add_history-Adds E T laws payload w plain)

    -- When the line's date does not read as a number: a line ADD_HISTORY with a payload that has no
    -- line feed and is not refused is answered with success. Then GET_HISTORY, asked by a known
    -- user from the start and with a limit above the number of rows that there were, replies with
    -- the document of all rows that there were and the new one, newest first and each of them
    -- once, or the json library throws; it changes nothing.
    pub get_history-add_history :
        (email : Text) (n : ℕ) (u : User)
        → is_empty email ≡ false
        → find (has_email (c_str email)) (T.users w.db) ≡ some u
        → length (T.rows w.db) < n
        → let o = handle E (line E Lines.add_history payload) w in
          (o.0 ≡ ok (success 200 "History created successfully"))
          × ListsAll
              (T.rows w.db ++ added_row E T laws (read_fields E w.stale_int payload) w ∷ [])
              o.1
              (get_history E email (pos n) (pos 0) o.1)
    get_history-add_history email n u filled known enough =
        let row = added_row E T laws (read_fields E w.stale_int payload) w in
        let rs = T.rows w.db ++ row ∷ [] in
        let longer : length rs ≡ length (T.rows w.db) + 1 =
          length-append (T.rows w.db) (row ∷ []) in
        subst
          (λ (o : Result Response × World E).
            (o.0 ≡ ok (success 200 "History created successfully"))
            × ListsAll rs o.1 (get_history E email (pos n) (pos 0) o.1))
          (sym (ap (λ f. f w) (handle-line E Lines.add_history payload clean)))
          (
            added.reply,
            get_history-ListsAll email n u rs (handle_add_history E payload w).1 filled
                (rw added.users known) added.rows (omega (arith, longer)) (omega arith),
          )

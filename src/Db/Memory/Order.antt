-- ===== src/Db/Memory/Order.antt =====
-- Dates compared byte by byte, and rows sorted by falling date.
use mathlib.Core.List.{Perm}
use mathlib.Core.List.Perm
use raspi_cctv_tcp_server.Prelude.{
  Bool, true, false, ◌&&◌, ◌||◌, List, [], ◌∷◌, Text, ◌≡◌, refl, arith, All, ltb, ◌==◌,
  if◌then◌else◌, Bool-cases, inl, inr,
}
use raspi_cctv_tcp_server.Db.Contract.{Row}

unfoldable pub text_le : Text → Text → Bool
text_le [] t = true
text_le (c ∷ s) [] = false
text_le (c ∷ s) (d ∷ t) = ltb c d || (c == d && text_le s t)

pub text_le_total : (s t : Text) → text_le s t ≡ false → text_le t s ≡ true
unfolding text_le
text_le_total [] t h = cc
text_le_total (c ∷ s) [] h = refl
text_le_total (c ∷ s) (d ∷ t) h = ground (arith, text_le_total s t)

pub text_le_trans : (s t u : Text) → text_le s t ≡ true → text_le t u ≡ true → text_le s u ≡ true
unfolding text_le
text_le_trans [] t u h k = refl
text_le_trans (c ∷ s) [] u h k = cc
text_le_trans (c ∷ s) (d ∷ t) [] h k = cc
text_le_trans (c ∷ s) (d ∷ t) (e ∷ u) h k = ground (arith, text_le_trans s t u)

module _ {D : Type 0} where
  insert : Row D → List (Row D) → List (Row D)
  insert r [] = r ∷ []
  insert r (q ∷ qs) =
      let rest = insert r qs in if text_le q.date r.date then r ∷ q ∷ qs else q ∷ rest

  unfoldable pub newest_first : List (Row D) → List (Row D)
  unfolding insert text_le
  newest_first [] = []
  newest_first (r ∷ rs) = insert r (newest_first rs)

  insert-perm : (r : Row D) (l : List (Row D)) → Perm (insert r l) (r ∷ l)
  unfolding insert
  insert-perm r [] = Perm.refl _
  insert-perm r (q ∷ qs) = elim (Bool-cases (text_le q.date r.date)) [
    | inl h ↦ rw h (Perm.refl _)
    | inr h ↦ rw h (Perm.trans (Perm.cons q (insert-perm r qs)) (Perm.swap _ _ _))
  ]

  pub newest_first-perm : (l : List (Row D)) → Perm (newest_first l) l
  unfolding newest_first
  newest_first-perm [] = Perm.refl _
  newest_first-perm (r ∷ rs) =
      Perm.trans (insert-perm r (newest_first rs)) (Perm.cons r (newest_first-perm rs))

  abbrev Below : Row D → List (Row D) → Type 0
  Below r = All (λ q. text_le q.date r.date ≡ true)

  abbrev IsFalling : List (Row D) → Type 0
  IsFalling [] = Unit
  IsFalling (r ∷ rs) = Below r rs × IsFalling rs

  Below-trans :
      (r q : Row D) (l : List (Row D)) → text_le q.date r.date ≡ true → Below q l → Below r l
  Below-trans r q [] h b = tt
  Below-trans r q (x ∷ l) h (p, b) = (text_le_trans x.date q.date r.date p h, Below-trans r q l h b)

  Below-insert :
      (q r : Row D) (l : List (Row D))
      → text_le r.date q.date ≡ true
      → Below q l
      → Below q (insert r l)
  unfolding insert
  Below-insert q r [] h b = (h, tt)
  Below-insert q r (x ∷ l) h (p, b) = elim (Bool-cases (text_le x.date r.date)) [
    | inl k ↦ rw k (h, (p, b))
    | inr k ↦ rw k (p, Below-insert q r l h b)
  ]

  insert-IsFalling : (r : Row D) (l : List (Row D)) → IsFalling l → IsFalling (insert r l)
  unfolding insert
  insert-IsFalling r [] f = (tt, tt)
  insert-IsFalling r (q ∷ l) (b, f) = elim (Bool-cases (text_le q.date r.date)) [
    | inl h ↦ rw h ((h, Below-trans r q l h b), (b, f))
    | inr h ↦ rw h (Below-insert q r l (text_le_total q.date r.date h) b, insert-IsFalling r l f)
  ]

  pub newest_first-IsFalling : (l : List (Row D)) → IsFalling (newest_first l)
  unfolding newest_first
  newest_first-IsFalling [] = tt
  newest_first-IsFalling (r ∷ rs) = insert-IsFalling r (newest_first rs) (newest_first-IsFalling rs)

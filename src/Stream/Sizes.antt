-- ===== src/Stream/Sizes.antt =====
-- The numbers that `>>` reads are in the range of their type.
use raspi_cctv_tcp_server.Prelude.{
  ℕ, ◌<◌, ◌^◌, Bool, true, false, List, [], ◌∷◌, Text, ◌≡◌, ◌⊎◌, refl, arith, leb, Bool-cases, inl,
  inr, ◌==◌,
}
use raspi_cctv_tcp_server.Stream.{
  Stream, digits_of, decimal, size_mod, unsigned, size_from, read_size, skip_space,
}

List-cases : (l : List ℕ) → (l ≡ []) ⊎ ((c : ℕ) × (ds : List ℕ) × (l ≡ c ∷ ds))
List-cases [] = inl refl
List-cases (c ∷ ds) = inr (c, ds, refl)

unsigned-lt : (minus : Bool) (s : Text) → (unsigned minus s).0 < 2 ^ 64
unfolding unsigned
unsigned-lt minus s = elim (List-cases (digits_of s)) [
  | inl e ↦ rw (e, unsigned) (omega arith)
  | inr (c, ds, e) ↦
      rw (e, unsigned)
        (elim (Bool-cases (leb size_mod (decimal 0 (c ∷ ds)))) [
          | inl big ↦ rw big (omega arith)
          | inr small ↦
              rw small (elim (Bool-cases minus) [
                | inl m ↦ rw m (omega arith)
                | inr p ↦ rw p (ground arith)
              ])
        ])
]

size_from-lt : (old : ℕ) (s : Text) → old < 2 ^ 64 → (size_from old s).0 < 2 ^ 64
unfolding size_from
size_from-lt old [] h = h
size_from-lt old (c ∷ s) h = elim (Bool-cases (c == b'-')) [
  | inl m ↦ rw m (unsigned-lt true s)
  | inr n ↦ rw n (elim (Bool-cases (c == b'+')) [
    | inl p ↦ rw p (unsigned-lt false s)
    | inr d ↦ rw d (unsigned-lt false (c ∷ s))
  ])
]

pub read_size-lt : (old : ℕ) (s : Stream) → old < 2 ^ 64 → (read_size old s).0 < 2 ^ 64
unfolding read_size
read_size-lt old s h = elim (Bool-cases s.failed) [
  | inl bad ↦ rw bad h
  | inr good ↦ rw good (size_from-lt old (skip_space s.rest) h)
]

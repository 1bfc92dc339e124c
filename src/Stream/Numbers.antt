-- ===== src/Stream/Numbers.antt =====
-- Decimal digits are read as the number they write.
use raspi_cctv_tcp_server.Prelude.{
  ℕ, ◌<◌, ◌^◌, true, false, [], ◌∷◌, ◌++◌, Text, ◌≡◌, refl, arith, All, is_empty, leb, ◌==◌,
}
use raspi_cctv_tcp_server.Stream.{
  is_space, is_digit, skip_space, digits_of, decimal, size_mod, unsigned, size_from, read_size,
}
use raspi_cctv_tcp_server.Stream.Words.{at}

abbrev pub IsDigits : Text → Type 0
IsDigits ds = (is_empty ds ≡ false) × All (λ c. is_digit c ≡ true) ds

digits_of_before : (ds r : Text) → All (λ c. is_digit c ≡ true) ds → digits_of (ds ++ 10 ∷ r) ≡ ds
unfolding digits_of
digits_of_before [] r h = refl
digits_of_before (c ∷ ds) r (p, h) = rw (p, digits_of_before ds r h) refl

is_digit-blank : (c : ℕ) → is_digit c ≡ true → is_space c ≡ false
is_digit-blank c h = ground arith

is_digit-minus : (c : ℕ) → is_digit c ≡ true → (c == b'-') ≡ false
is_digit-minus c h = ground arith

is_digit-plus : (c : ℕ) → is_digit c ≡ true → (c == b'+') ≡ false
is_digit-plus c h = ground arith

unsigned_digits :
    (c : ℕ) (ds r : Text)
    → All (λ c. is_digit c ≡ true) (c ∷ ds)
    → decimal 0 (c ∷ ds) < 2 ^ 64
    → (unsigned false (c ∷ ds ++ 10 ∷ r)).0 ≡ decimal 0 (c ∷ ds)
unfolding unsigned
unsigned_digits c ds r h small =
    let fits : leb size_mod (decimal 0 (c ∷ ds)) ≡ false = ground arith in
    rw (digits_of_before (c ∷ ds) r h, unsigned, fits) refl

-- Behind a blank, digits that end at a line feed, of a number that fits, are read as that number.
pub read_size_digits :
    (old : ℕ) (ds r : Text)
    → IsDigits ds
    → decimal 0 ds < 2 ^ 64
    → (read_size old (at (32 ∷ ds ++ 10 ∷ r))).0 ≡ decimal 0 ds
unfolding read_size skip_space size_from
read_size_digits old [] r (e, h) small = cc
read_size_digits old (c ∷ ds) r (e, (p, h)) small =
    rw (is_digit-blank c p, is_digit-minus c p, is_digit-plus c p)
      (unsigned_digits c ds r (p, h) small)

-- ===== src/Server/Auth/Hashing.antt =====
-- The hexadecimal form of a digest: `ss.str()` in the three handlers that hash a password.
use raspi_cctv_tcp_server.Prelude.{
  ℕ, ◌*◌, ◌/◌, ◌%◌, ◌<◌, List, [], ◌∷◌, Text, ◌≡◌, refl, ap, arith, length, All, c_str,
}
use raspi_cctv_tcp_server.Server.Auth.{hex, hex_digit}

-- The text has two digits for each byte.
pub length-hex : (bs : List ℕ) → length (hex bs) ≡ 2 * length bs
unfolding hex
length-hex [] = refl
length-hex (b ∷ bs) = omega (arith, length-hex bs)

hex_digit_injective : (a b : ℕ) → a < 16 → b < 16 → hex_digit a ≡ hex_digit b → a ≡ b
hex_digit_injective a b p q h = ground arith

abbrev tail_of : Text → Text
tail_of [] = []
tail_of (c ∷ s) = s

abbrev head_of : Text → ℕ
head_of [] = 0
head_of (c ∷ s) = c

abbrev pub IsByte : ℕ → Type 0
IsByte b = b < 256

-- Two lists of bytes with the same hexadecimal text are the same list.
pub hex_injective : (xs ys : List ℕ) → All IsByte xs → All IsByte ys → hex xs ≡ hex ys → xs ≡ ys
unfolding hex
hex_injective [] [] hx hy h = refl
hex_injective [] (y ∷ ys) hx hy h = cc
hex_injective (x ∷ xs) [] hx hy h = cc
hex_injective (x ∷ xs) (y ∷ ys) (px, hx) (py, hy) h =
    let high : x / 16 % 16 ≡ y / 16 % 16 =
      hex_digit_injective _ _ (omega arith) (omega arith) (ap head_of h) in
    let low : x % 16 ≡ y % 16 =
      hex_digit_injective _ _ (omega arith) (omega arith) (ap (λ s. head_of (tail_of s)) h) in
    let head : x ≡ y = omega arith in
    let rest : xs ≡ ys = hex_injective xs ys hx hy (ap (λ s. tail_of (tail_of s)) h) in
    cc (head, rest)

pub c_str-hex : (bs : List ℕ) → c_str (hex bs) ≡ hex bs
unfolding hex c_str
c_str-hex [] = refl
c_str-hex (b ∷ bs) = ground (arith, c_str-hex bs)

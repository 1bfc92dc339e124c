-- ===== src/Stream.antt =====
-- What the server uses of `std::istringstream`: `>>` into a string, an `int` and a `size_t`, and
-- `std::getline`. An extraction takes the variable's old value and returns its new one: on a stream
-- that has failed, or that holds nothing but blanks, the variable keeps what it held.
pub mod Words
pub mod Sizes
pub mod Numbers
use raspi_cctv_tcp_server.Prelude.{
  ℕ, ◌+◌, ◌-◌, ◌*◌, ◌%◌, ◌^◌, Bool, true, false, ◌&&◌, ◌||◌, List, [], ◌∷◌, Text, ℤ, pos, negsuc,
  ltb, leb, ◌==◌, if◌then◌else◌,
}

pub record Stream : Type 0 where
  pub rest : Text
  pub failed : Bool

unfoldable pub open_stream : Text → Stream
open_stream s = record { rest = s; failed = false }

-- isspace in the C locale
abbrev pub is_space : ℕ → Bool
is_space c = c == 32 || (leb 9 c && leb c 13)

abbrev pub is_digit : ℕ → Bool
is_digit c = leb 48 c && leb c 57

unfoldable pub skip_space : Text → Text
skip_space [] = []
skip_space (c ∷ s) = let rest = skip_space s in if is_space c then rest else c ∷ s

unfoldable pub word_of : Text → Text
word_of [] = []
word_of (c ∷ s) = let rest = word_of s in if is_space c then [] else c ∷ rest

unfoldable pub after_word : Text → Text
after_word [] = []
after_word (c ∷ s) = let rest = after_word s in if is_space c then c ∷ s else rest

unfoldable pub digits_of : Text → Text
digits_of [] = []
digits_of (c ∷ s) = let rest = digits_of s in if is_digit c then c ∷ rest else []

unfoldable pub after_digits : Text → Text
after_digits [] = []
after_digits (c ∷ s) = let rest = after_digits s in if is_digit c then rest else c ∷ s

unfoldable pub decimal : ℕ → Text → ℕ
decimal acc [] = acc
decimal acc (c ∷ s) = decimal (acc * 10 + (c - 48)) s

-- `iss >> word`
word_from : Text → Text → Text × Stream
word_from old [] = (old, record { rest = []; failed = true })
word_from old (c ∷ s) = (word_of (c ∷ s), record { rest = after_word (c ∷ s); failed = false })

unfoldable pub read_word : Text → Stream → Text × Stream
unfolding word_from skip_space word_of after_word
read_word old s = if s.failed then (old, s) else word_from old (skip_space s.rest)

-- `iss >> number` into an `int`: a value out of range is clamped and fails.
abbrev int_max : ℕ
int_max = 2 ^ 31 - 1

positive : Text → ℤ × Stream
positive s = elim (digits_of s) [
  | [] ↦ (pos 0, record { rest = s; failed = true })
  | c ∷ ds ↦
      let v = decimal 0 (c ∷ ds) in
      if ltb int_max v
      then (pos int_max, record { rest = after_digits s; failed = true })
      else (pos v, record { rest = after_digits s; failed = false })
]

negative : Text → ℤ × Stream
negative s = elim (digits_of s) [
  | [] ↦ (pos 0, record { rest = s; failed = true })
  | c ∷ ds ↦
      let v = decimal 0 (c ∷ ds) in
      if ltb (int_max + 1) v
      then (negsuc int_max, record { rest = after_digits s; failed = true })
      else (
        if v == 0 then pos 0 else negsuc (v - 1),
        record { rest = after_digits s; failed = false },
      )
]

int_from : ℤ → Text → ℤ × Stream
int_from old [] = (old, record { rest = []; failed = true })
int_from old (c ∷ s) =
    if c == b'-' then negative s else if c == b'+' then positive s else positive (c ∷ s)

unfoldable pub read_int : ℤ → Stream → ℤ × Stream
unfolding int_from positive negative digits_of after_digits decimal skip_space
read_int old s = if s.failed then (old, s) else int_from old (skip_space s.rest)

-- `iss >> size` into a 64-bit `size_t`: a minus sign is accepted and the value wraps around.
abbrev size_mod : ℕ
size_mod = 2 ^ 64

unsigned : Bool → Text → ℕ × Stream
unsigned minus s = elim (digits_of s) [
  | [] ↦ (0, record { rest = s; failed = true })
  | c ∷ ds ↦
      let v = decimal 0 (c ∷ ds) in
      if leb size_mod v then (size_mod - 1, record { rest = after_digits s; failed = true }) else (
        if minus then (size_mod - v) % size_mod else v,
        record { rest = after_digits s; failed = false },
      )
]

size_from : ℕ → Text → ℕ × Stream
size_from old [] = (old, record { rest = []; failed = true })
size_from old (c ∷ s) =
    if c == b'-'
    then unsigned true s
    else if c == b'+'
    then unsigned false s
    else unsigned false (c ∷ s)

unfoldable pub read_size : ℕ → Stream → ℕ × Stream
unfolding size_from unsigned digits_of after_digits decimal skip_space
read_size old s = if s.failed then (old, s) else size_from old (skip_space s.rest)

-- `std::getline(iss, s, delim)`: the text before the delimiter, and the stream behind it.
unfoldable pub before_char : ℕ → Text → Text
before_char d [] = []
before_char d (c ∷ s) = let rest = before_char d s in if c == d then [] else c ∷ rest

unfoldable pub after_char : ℕ → Text → Text
after_char d [] = []
after_char d (c ∷ s) = let rest = after_char d s in if c == d then s else rest

unfoldable pub get_line : ℕ → Text → Text × Text
unfolding before_char after_char
get_line d s = (before_char d s, after_char d s)

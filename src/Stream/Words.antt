-- ===== src/Stream/Words.antt =====
-- Extraction from text that is words with single blanks between them.
use raspi_cctv_tcp_server.Prelude.{
  ℕ, ◌≡◌, refl, true, false, [], ◌∷◌, ◌++◌, Text, arith, All, is_empty, ◌==◌,
}
use raspi_cctv_tcp_server.Stream.{
  Stream, is_space, skip_space, word_of, after_word, read_word, before_char, after_char, get_line,
}

abbrev pub NoSpace : ℕ → Type 0
NoSpace c = is_space c ≡ false

-- What `>>` reads as one word: not empty, and no blank in it.
abbrev pub IsWord : Text → Type 0
IsWord w = (is_empty w ≡ false) × All NoSpace w

word_of-append : (w r : Text) (b : ℕ) → is_space b ≡ true → All NoSpace w → word_of (w ++ b ∷ r) ≡ w
unfolding word_of
word_of-append [] r b blank h = rw blank refl
word_of-append (c ∷ w) r b blank (p, h) = rw (p, word_of-append w r b blank h) refl

word_of-All : (w : Text) → All NoSpace w → word_of w ≡ w
unfolding word_of
word_of-All [] h = refl
word_of-All (c ∷ w) (p, h) = rw (p, word_of-All w h) refl

after_word-append :
    (w r : Text) (b : ℕ) → is_space b ≡ true → All NoSpace w → after_word (w ++ b ∷ r) ≡ b ∷ r
unfolding after_word
after_word-append [] r b blank h = rw blank refl
after_word-append (c ∷ w) r b blank (p, h) = rw (p, after_word-append w r b blank h) refl

after_word-All : (w : Text) → All NoSpace w → after_word w ≡ []
unfolding after_word
after_word-All [] h = refl
after_word-All (c ∷ w) (p, h) = rw (p, after_word-All w h) refl

skip_space_word : (w r : Text) → IsWord w → skip_space (w ++ r) ≡ w ++ r
unfolding skip_space
skip_space_word [] r (e, h) = cc
skip_space_word (c ∷ w) r (_, (p, h)) = rw p refl

skip_space_blank : (s : Text) → skip_space (32 ∷ s) ≡ skip_space s
unfolding skip_space
skip_space_blank s = refl

abbrev pub at : Text → Stream
at s = record { rest = s; failed = false }

-- A word with a blank of any kind behind it is read whole, and the stream stands at the blank.
pub read_word_before :
    (old w r : Text) (b : ℕ)
    → is_space b ≡ true
    → IsWord w
    → read_word old (at (w ++ b ∷ r)) ≡ (w, at (b ∷ r))
unfolding read_word
read_word_before old [] r b blank (e, h) = cc
read_word_before old (c ∷ w) r b blank (_, (p, h)) =
    rw (p, word_of-append w r b blank h, after_word-append w r b blank h, p) refl

pub read_word-append :
    (old w r : Text) → IsWord w → read_word old (at (w ++ 32 ∷ r)) ≡ (w, at (32 ∷ r))
read_word-append old w r h = read_word_before old w r 32 refl h

-- A blank in front of a word is skipped.
pub read_word_blank : (old s : Text) → read_word old (at (32 ∷ s)) ≡ read_word old (at s)
unfolding read_word
read_word_blank old s = refl

-- The last word is read whole, and nothing is left.
pub read_word_last : (old w : Text) → IsWord w → read_word old (at w) ≡ (w, at [])
unfolding read_word
read_word_last old [] (e, h) = cc
read_word_last old (c ∷ w) (_, (p, h)) = rw (p, word_of-All w h, after_word-All w h, p) refl

abbrev pub NotChar : ℕ → ℕ → Type 0
NotChar d c = (c == d) ≡ false

pub before_char-append : (d : ℕ) (w r : Text) → All (NotChar d) w → before_char d (w ++ d ∷ r) ≡ w
unfolding before_char
before_char-append d [] r h = ground arith
before_char-append d (c ∷ w) r (p, h) = rw (p, before_char-append d w r h) refl

after_char-append : (d : ℕ) (w r : Text) → All (NotChar d) w → after_char d (w ++ d ∷ r) ≡ r
unfolding after_char
after_char-append d [] r h = ground arith
after_char-append d (c ∷ w) r (p, h) = rw (p, after_char-append d w r h) refl

-- `getline` splits at the first delimiter.
pub get_line-append : (d : ℕ) (w r : Text) → All (NotChar d) w → get_line d (w ++ d ∷ r) ≡ (w, r)
unfolding get_line
get_line-append d w r h = cc (before_char-append d w r h, after_char-append d w r h)

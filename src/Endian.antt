-- ===== src/Endian.antt =====
-- src/util/EndianUtils.cpp, as it is compiled for a little-endian host. `htonl` and `ntohl` are the
-- system's, and parameters.
pub mod NetworkOrder
use raspi_cctv_tcp_server.Prelude.{ℕ, zero, suc, ◌*◌, ◌/◌, ◌%◌, ◌^◌, List, [], ◌∷◌, ◌++◌, bit_or}

-- ((uint64_t)swap(value & 0xFFFFFFFF) << 32) | swap(value >> 32)
abbrev swap_halves : (ℕ → ℕ) → ℕ → ℕ
swap_halves swap value =
    bit_or (swap (value % 2 ^ 32) * 2 ^ 32 % 2 ^ 64) (swap (value / 2 ^ 32 % 2 ^ 32))

unfoldable pub htonll : (ℕ → ℕ) → ℕ → ℕ
htonll htonl value = swap_halves htonl value

unfoldable pub ntohll : (ℕ → ℕ) → ℕ → ℕ
ntohll ntohl value = swap_halves ntohl value

-- include/util/EndianUtils.hpp
pub record ByteOrder : Type 0 where
  pub htonll : ℕ → ℕ
  pub ntohll : ℕ → ℕ

abbrev pub byte_order : (ℕ → ℕ) → (ℕ → ℕ) → ByteOrder
byte_order htonl ntohl = record {
  htonll = λ value. htonll htonl value;
  ntohll = λ value. ntohll ntohl value;
}

-- The bytes of a number in memory: on a little-endian host the low byte comes first.
unfoldable pub bytes_le : ℕ → ℕ → List ℕ
bytes_le zero v = []
bytes_le (suc n) v = v % 256 ∷ bytes_le n (v / 256)

-- The bytes of a number in network order, the high byte first.
unfoldable pub bytes_be : ℕ → ℕ → List ℕ
bytes_be zero v = []
bytes_be (suc n) v = bytes_be n (v / 256) ++ v % 256 ∷ []

-- ===== src/Endian/NetworkOrder.antt =====
-- The 64-bit conversion puts a number into network order, and its inverse takes it back.
use raspi_cctv_tcp_server.Prelude.{
  ℕ, ◌+◌, ◌*◌, ◌/◌, ◌%◌, ◌^◌, ◌<◌, ◌++◌, ◌≡◌, sym, arith, ap, ap₂, bit_or, bit_or_disjoint, ◌∙◌,
}
use raspi_cctv_tcp_server.Endian.{byte_order, htonll, ntohll, bytes_le, bytes_be}

-- What the system documents of `htonl` and `ntohl`.
pub record NetContract (htonl ntohl : ℕ → ℕ) : Type 0 where
  pub bytes : (v : ℕ) → v < 2 ^ 32 → bytes_le 4 (htonl v) ≡ bytes_be 4 v
  pub in_range : (v : ℕ) → htonl v < 2 ^ 32
  pub back : (v : ℕ) → v < 2 ^ 32 → ntohl (htonl v) ≡ v
  pub back_in_range : (v : ℕ) → ntohl v < 2 ^ 32

module _ (swap : ℕ → ℕ) (in_range : (v : ℕ) → swap v < 2 ^ 32) where
  -- The two halves do not overlap.
  halves :
      (value : ℕ)
      → htonll swap value ≡ swap (value % 2 ^ 32) * 2 ^ 32 + swap (value / 2 ^ 32 % 2 ^ 32)
  unfolding htonll
  halves value =
      let high = in_range (value % 2 ^ 32) in
      let low = in_range (value / 2 ^ 32 % 2 ^ 32) in
      ap (λ (t : ℕ). bit_or t (swap (value / 2 ^ 32 % 2 ^ 32))) (omega (arith, high))
      ∙ bit_or_disjoint 32 (swap (value % 2 ^ 32)) _ low

four :
    (a b : ℕ) → a < 2 ^ 32 → b < 2 ^ 32 → bytes_le 8 (b * 2 ^ 32 + a) ≡ bytes_le 4 a ++ bytes_le 4 b
unfolding bytes_le
four a b ha hb = ground arith

four_be : (a b : ℕ) → b < 2 ^ 32 → bytes_be 8 (a * 2 ^ 32 + b) ≡ bytes_be 4 a ++ bytes_be 4 b
unfolding bytes_be
four_be a b hb = ground arith

split_halves : (v : ℕ) → v < 2 ^ 64 → v ≡ v / 2 ^ 32 % 2 ^ 32 * 2 ^ 32 + v % 2 ^ 32
split_halves v h = omega arith

module _ (htonl ntohl : ℕ → ℕ) (net : NetContract htonl ntohl) (v : ℕ) (small : v < 2 ^ 64) where
  -- For a number below 2 ^ 64, and an htonl that turns 32-bit numbers into network order: in the
  -- memory of a little-endian host the converted number has the bytes of the number in network
  -- order.
  pub bytes_le-htonll : bytes_le 8 (htonll htonl v) ≡ bytes_be 8 v
  bytes_le-htonll =
      ap (bytes_le 8) (halves htonl net.in_range v)
      ∙ four _ _ (net.in_range _) (net.in_range _)
      ∙ ap₂ ◌++◌ (net.bytes _ (omega arith)) (net.bytes _ (omega arith))
      ∙ sym (four_be (v / 2 ^ 32 % 2 ^ 32) (v % 2 ^ 32) (omega arith))
      ∙ ap (bytes_be 8) (sym (split_halves v small))

  -- For a number below 2 ^ 64, and an ntohl that takes htonl back on 32-bit numbers: ntohll takes
  -- htonll back.
  pub ntohll-htonll : let order = byte_order htonl ntohl in order.ntohll (order.htonll v) ≡ v
  ntohll-htonll =
      let low = net.in_range (v / 2 ^ 32 % 2 ^ 32) in
      let high = net.in_range (v % 2 ^ 32) in
      let h = halves htonl net.in_range v in
      let h_low : htonll htonl v % 2 ^ 32 ≡ htonl (v / 2 ^ 32 % 2 ^ 32) = omega (arith, h, low) in
      let h_high : htonll htonl v / 2 ^ 32 % 2 ^ 32 ≡ htonl (v % 2 ^ 32) =
        omega (arith, h, low, high) in
      unfold ntohll htonll in
      halves ntohl net.back_in_range (htonll htonl v)
      ∙ ap₂ (λ (x y : ℕ). ntohl x * 2 ^ 32 + ntohl y) h_low h_high
      ∙ ap₂ (λ (x y : ℕ). x * 2 ^ 32 + y) (net.back _ (omega arith)) (net.back _ (omega arith))
      ∙ sym (split_halves v small)

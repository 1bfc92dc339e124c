-- ===== src/Prelude/Bits.antt =====
-- `|` of a number shifted up and a number below the shift is their sum.
use Prim.Native.Nat.{
  ℕ, zero, suc, ◌+◌, ◌*◌, ◌/◌, ◌^◌, ◌≤◌, ◌<◌, max, bit_or, digits, bit_or-bitwise,
}
use mathlib.Core.Path.{◌≡◌, refl, ◌∙◌, ap}
use native.Mathlib.Omega.{arith}
use native.Mathlib.Nat.{pow-suc}

-- The recursion that `|` stands for, with at least `a` digits left.
abbrev joined : ℕ → ℕ → ℕ → ℕ
joined n a b = digits (λ b. b) max n a b

joined-zero : (n a : ℕ) → a ≤ n → joined n a 0 ≡ a
joined-zero zero zero h = refl
joined-zero zero (suc a) h = absurd (omega arith)
joined-zero (suc n) zero h = refl
joined-zero (suc n) (suc a) h = omega (arith, joined-zero n (suc a / 2) (omega arith))

twice : ℕ → ℕ → ℕ
twice hi k = hi * 2 ^ k

joined_disjoint : (k n hi lo a : ℕ) → a ≡ hi * 2 ^ k → a ≤ n → lo < 2 ^ k → joined n a lo ≡ a + lo
joined_disjoint zero n hi zero a e h l = omega (arith, joined-zero n a h)
joined_disjoint zero n hi (suc lo) a e h l = absurd (omega arith)
joined_disjoint (suc k) zero hi lo zero e h l = omega arith
joined_disjoint (suc k) (suc n) hi lo zero e h l = omega arith
joined_disjoint (suc k) zero hi lo (suc a) e h l = absurd (omega arith)
joined_disjoint (suc k) (suc n) hi lo (suc a) e h l =
    let p : 2 ^ suc k ≡ 2 ^ k * 2 = pow-suc 2 k in
    let double : suc a ≡ (hi * 2 ^ k) * 2 = omega (arith, e, ap (λ (t : ℕ). hi * t) p) in
    omega (
      arith,
      double,
      joined_disjoint k n hi (lo / 2) (suc a / 2) (omega (arith, double)) (omega arith)
          (omega (arith, p)),
    )

pub bit_or_disjoint : (k hi lo : ℕ) → lo < 2 ^ k → bit_or (hi * 2 ^ k) lo ≡ hi * 2 ^ k + lo
bit_or_disjoint k hi lo h =
    bit_or-bitwise (hi * 2 ^ k) lo
    ∙ joined_disjoint k (hi * 2 ^ k) hi lo (hi * 2 ^ k) refl (omega arith) h

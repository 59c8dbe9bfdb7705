-- ===== src/Common/Bits.antt =====
-- `|` of bit fields that do not meet is their sum.
use Prim.Native.Nat.{
  ℕ, zero, suc, ◌+◌, ◌*◌, ◌/◌, ◌^◌, ◌≤◌, ◌<◌, max, digits, bit_or, bit_or-bitwise,
}
use mathlib.Core.Path.{◌≡◌, ap, ◌∙◌}
use native.Mathlib.Nat.{pow-suc, le_refl}
use native.Mathlib.Omega.{arith}

-- With enough rounds for the low field `a`, the digits of `a` and of the shifted `q` add up.
or_rounds : (n k q a : ℕ) → a ≤ n → a < 2 ^ k → digits (λ y. y) max n a (q * 2 ^ k) ≡ a + q * 2 ^ k
or_rounds zero k q zero h f = omega arith
or_rounds (suc n) k q zero h f = omega arith
or_rounds zero k q (suc a) h f = absurd (omega arith)
or_rounds (suc n) zero q (suc a) h f = absurd (omega arith)
or_rounds (suc n) (suc k) q (suc a) h f =
    let doubled : q * 2 ^ suc k ≡ 2 * (q * 2 ^ k) =
      omega (arith, ap (λ (t : ℕ). q * t) (pow-suc 2 k)) in
    let halved : q * 2 ^ suc k / 2 ≡ q * 2 ^ k = omega (arith, doubled) in
    rw halved (
      omega
        (arith, doubled, or_rounds n k q (suc a / 2) (omega arith) (omega (arith, pow-suc 2 k))))

pub bit_or-shifted : (k q a : ℕ) → a < 2 ^ k → bit_or a (q * 2 ^ k) ≡ a + q * 2 ^ k
bit_or-shifted k q a f = bit_or-bitwise a (q * 2 ^ k) ∙ or_rounds a k q a (le_refl a) f

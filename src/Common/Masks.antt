-- ===== src/Common/Masks.antt =====
-- `&` and `|` bit by bit: the laws that masks of flags need.
use Prim.Native.Nat.{
  ℕ, zero, suc, ◌+◌, ◌*◌, ◌/◌, ◌%◌, ◌≤◌, min, max, digits, bit_and, bit_or, bit_and-bitwise,
  bit_or-bitwise,
}
use mathlib.Core.Path.{◌≡◌, refl, sym, ap, ◌∙◌}
use mathlib.Core.Bool.{false}
use native.Mathlib.Nat.{le_refl}
use native.Mathlib.Omega.{arith}
use tag_testting.Common.Tests.{◌==◌, if◌then◌else◌}

-- More rounds than the number needs change nothing.
digits_rounds :
    (z : ℕ → ℕ) (f : ℕ → ℕ → ℕ) (n m a b : ℕ) → a ≤ n → a ≤ m → digits z f n a b ≡ digits z f m a b
digits_rounds z f zero zero zero b h k = refl
digits_rounds z f zero (suc m) zero b h k = refl
digits_rounds z f (suc n) zero zero b h k = refl
digits_rounds z f (suc n) (suc m) zero b h k = refl
digits_rounds z f zero m (suc a) b h k = absurd (omega arith)
digits_rounds z f (suc n) zero (suc a) b h k = absurd (omega arith)
digits_rounds z f (suc n) (suc m) (suc a) b h k =
    ap (λ t. t * 2 + f (suc a % 2) (b % 2))
      (digits_rounds z f n m (suc a / 2) (b / 2) (omega arith) (omega arith))

-- A bitwise operation by halves, for one that gives `z b` against 0.
bitwise_step :
    (z : ℕ → ℕ) (f : ℕ → ℕ → ℕ)
    → ((b : ℕ) → z b ≡ z (b / 2) * 2 + f 0 (b % 2))
    → (a b : ℕ) → digits z f a a b ≡ digits z f (a / 2) (a / 2) (b / 2) * 2 + f (a % 2) (b % 2)
bitwise_step z f zs zero b = zs b
bitwise_step z f zs (suc a) b =
    ap (λ t. t * 2 + f (suc a % 2) (b % 2))
      (digits_rounds z f a (suc a / 2) (suc a / 2) (b / 2) (omega arith) (omega arith))

and_step : (a b : ℕ) → bit_and a b ≡ bit_and (a / 2) (b / 2) * 2 + min (a % 2) (b % 2)
and_step a b =
    bit_and-bitwise a b
    ∙ bitwise_step (λ b. 0) min (λ b. omega arith) a b
    ∙ ap (λ t. t * 2 + min (a % 2) (b % 2)) (sym (bit_and-bitwise (a / 2) (b / 2)))

or_step : (a b : ℕ) → bit_or a b ≡ bit_or (a / 2) (b / 2) * 2 + max (a % 2) (b % 2)
or_step a b =
    bit_or-bitwise a b
    ∙ bitwise_step (λ b. b) max (λ b. omega arith) a b
    ∙ ap (λ t. t * 2 + max (a % 2) (b % 2)) (sym (bit_or-bitwise (a / 2) (b / 2)))

-- The halves of a number given by its halves.
and_halves :
    (a b : ℕ)
    → (bit_and a b / 2 ≡ bit_and (a / 2) (b / 2)) × (bit_and a b % 2 ≡ min (a % 2) (b % 2))
and_halves a b = (omega (arith, and_step a b), omega (arith, and_step a b))

or_halves :
    (a b : ℕ) → (bit_or a b / 2 ≡ bit_or (a / 2) (b / 2)) × (bit_or a b % 2 ≡ max (a % 2) (b % 2))
or_halves a b = (omega (arith, or_step a b), omega (arith, or_step a b))

-- Two numbers with the same halves and the same last digits.
same_halves : (a b : ℕ) → a / 2 ≡ b / 2 → a % 2 ≡ b % 2 → a ≡ b
same_halves a b h l = omega arith

and_zero : (b : ℕ) → bit_and 0 b ≡ 0
and_zero b = bit_and-bitwise 0 b

or_nil : (b : ℕ) → bit_or 0 b ≡ b
or_nil b = bit_or-bitwise 0 b

and-or_fuel :
    (n a b m : ℕ) → a ≤ n → b ≤ n → bit_and (bit_or a b) m ≡ bit_or (bit_and a m) (bit_and b m)
and-or_fuel zero zero zero m h k = rw (or_nil 0, and_zero m, or_nil 0) refl
and-or_fuel zero (suc a) b m h k = absurd (omega arith)
and-or_fuel zero zero (suc b) m h k = absurd (omega arith)
and-or_fuel (suc n) a b m h k =
    same_halves (bit_and (bit_or a b) m) (bit_or (bit_and a m) (bit_and b m))
      (rw
        (
          (and_halves (bit_or a b) m).0,
          (or_halves a b).0,
          (or_halves (bit_and a m) (bit_and b m)).0,
          (and_halves a m).0,
          (and_halves b m).0,
        )
        (and-or_fuel n (a / 2) (b / 2) (m / 2) (omega arith) (omega arith)))
      (rw
        (
          (and_halves (bit_or a b) m).1,
          (or_halves a b).1,
          (or_halves (bit_and a m) (bit_and b m)).1,
          (and_halves a m).1,
          (and_halves b m).1,
        )
        (omega arith))

pub and-or : (a b m : ℕ) → bit_and (bit_or a b) m ≡ bit_or (bit_and a m) (bit_and b m)
and-or a b m = and-or_fuel (max a b) a b m (omega arith) (omega arith)

and-and_fuel : (n a b m : ℕ) → a ≤ n → bit_and (bit_and a b) m ≡ bit_and a (bit_and b m)
and-and_fuel zero zero b m h = rw (and_zero b, and_zero (bit_and b m)) (and_zero m)
and-and_fuel zero (suc a) b m h = absurd (omega arith)
and-and_fuel (suc n) a b m h =
    same_halves (bit_and (bit_and a b) m) (bit_and a (bit_and b m))
      (rw
        (
          (and_halves (bit_and a b) m).0,
          (and_halves a b).0,
          (and_halves a (bit_and b m)).0,
          (and_halves b m).0,
        )
        (and-and_fuel n (a / 2) (b / 2) (m / 2) (omega arith)))
      (rw
        (
          (and_halves (bit_and a b) m).1,
          (and_halves a b).1,
          (and_halves a (bit_and b m)).1,
          (and_halves b m).1,
        )
        (omega arith))

pub and-and : (a b m : ℕ) → bit_and (bit_and a b) m ≡ bit_and a (bit_and b m)
and-and a b m = and-and_fuel a a b m (le_refl a)

or_zero_fuel : (n a b : ℕ) → a ≤ n → b ≤ n → bit_or a b ≡ 0 → (a ≡ 0) × (b ≡ 0)
or_zero_fuel zero a b h k e = omega arith
or_zero_fuel (suc n) a b h k e =
    let halves =
      or_zero_fuel n (a / 2) (b / 2) (omega arith) (omega arith) (omega (arith, or_step a b)) in
    omega (arith, halves, or_step a b)

-- A flag of a union is a flag of either.
pub flag-or :
    (a b m : ℕ)
    → (bit_and (bit_or a b) m == 0) ≡ (if bit_and a m == 0 then bit_and b m == 0 else false)
flag-or a b m =
    let x = bit_and a m in
    let y = bit_and b m in rw (and-or a b m) (ground (arith, or_zero_fuel (max x y) x y, or_nil y))

and_none_fuel : (n a : ℕ) → a ≤ n → bit_and a 0 ≡ 0
and_none_fuel zero zero h = refl
and_none_fuel zero (suc a) h = absurd (omega arith)
and_none_fuel (suc n) a h = omega (arith, and_step a 0, and_none_fuel n (a / 2) (omega arith))

pub and_none : (a : ℕ) → bit_and a 0 ≡ 0
and_none a = and_none_fuel a a (le_refl a)

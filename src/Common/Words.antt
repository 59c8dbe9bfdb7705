-- ===== src/Common/Words.antt =====
-- Unsigned machine words as native numbers, and the signed reading of their differences.
use Prim.Native.Nat.{ℕ, ◌+◌, ◌-◌, ◌%◌, ◌^◌, ◌<◌}
use mathlib.Core.Path.{◌≡◌}
use mathlib.Core.Bool.{Bool, ◌&&◌}
use native.Mathlib.Omega.{arith}
use tag_testting.Common.Tests.{ltb, leb}

-- The casts `(uint8_t)`, `(uint16_t)` and `(uint32_t)`.
abbrev pub u8 : ℕ → ℕ
u8 n = n % 2 ^ 8

abbrev pub u16 : ℕ → ℕ
u16 n = n % 2 ^ 16

abbrev pub u32 : ℕ → ℕ
u32 n = n % 2 ^ 32

-- `a - b` on `uint32_t`, for words `a` and `b`.
unfoldable pub sub32 : ℕ → ℕ → ℕ
sub32 a b = (a + 2 ^ 32 - b) % 2 ^ 32

-- `(int8_t)(a - b) > 0` on `uint8_t`: serial-number order.
unfoldable pub newer8 : ℕ → ℕ → Bool
newer8 a b = let d = (a + 2 ^ 8 - b) % 2 ^ 8 in ltb 0 d && ltb d (2 ^ 7)

-- `(int32_t)w >= (int32_t)k` for a word `w` and a `k` below `2 ^ 31`.
abbrev pub sge32 : ℕ → ℕ → Bool
sge32 w k = ltb w (2 ^ 31) && leb k w

-- The difference of two clock readings that are `d` apart is `d`, whether the clock wraps or not.
pub sub32-add : (a d : ℕ) → a < 2 ^ 32 → d < 2 ^ 32 → sub32 (u32 (a + d)) a ≡ d
unfolding sub32
sub32-add a d ha hd = omega arith

pub sub32-lt : (a b : ℕ) → sub32 a b < 2 ^ 32
unfolding sub32
sub32-lt a b = omega arith

pub sub32_self : (a : ℕ) → sub32 a a ≡ 0
unfolding sub32
sub32_self a = omega arith

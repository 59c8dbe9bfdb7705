-- ===== src/Debug/Flags.antt =====
-- The flag byte of a SWEEP record, field by field.
use tag_testting.Common.{
  ℕ, zero, suc, ◌+◌, ◌*◌, ◌/◌, ◌%◌, ◌^◌, ◌≤◌, ◌<◌, ◌≡◌, refl, ap, ◌∙◌, ℕ_discrete, Bool, true,
  false, not, bit_and, bit_or-shifted, ◌==◌, ==_iff, if◌then◌else◌, arith,
}
use tag_testting.Debug.Encode.{flags_of, responded}

-- Whether a test passes for each byte, from the largest value that is still to try.
passes : (ℕ → Bool) → ℕ → Bool
passes test zero = test 0
passes test (suc v) = let rest = passes test v in if test (suc v) then rest else false

passes_each : (test : ℕ → Bool) (most m : ℕ) → passes test most ≡ true → m ≤ most → test m ≡ true
unfolding passes
passes_each test zero m tried small = ap test (omega arith) ∙ tried
passes_each test (suc v) m tried small = elim (ℕ_discrete m (suc v)) [
  | yes same ↦ ap test same ∙ ground arith
  | no other ↦ passes_each test v m (ground arith) (omega arith)
]

-- The low bits of a byte, as a mask and as a remainder.
low_four : passes (λ m. bit_and m 15 == m % 16) 255 ≡ true
unfolding passes
low_four = refl

low_two : passes (λ m. bit_and m 3 == m % 4) 255 ≡ true
unfolding passes
low_two = refl

pub and-fifteen : (m : ℕ) → m < 2 ^ 8 → bit_and m 15 ≡ m % 16
and-fifteen m h = (==_iff _ (m % 16)).0 (passes_each _ 255 m low_four (omega arith))

pub and-three : (m : ℕ) → m < 2 ^ 8 → bit_and m 3 ≡ m % 4
and-three m h = (==_iff _ (m % 4)).0 (passes_each _ 255 m low_two (omega arith))

abbrev agree : Bool → Bool → Bool
agree true b = b
agree false b = not b

agree_eq : (a b : Bool) → agree a b ≡ true → a ≡ b
agree_eq a b h = ground arith

-- The test of a mask bit reads the digit of the number.
slot_table :
    (passes (λ m. agree (responded m 0) (m % 2 == 1)) 255 ≡ true)
    × (passes (λ m. agree (responded m 1) (m / 2 % 2 == 1)) 255 ≡ true)
    × (passes (λ m. agree (responded m 2) (m / 4 % 2 == 1)) 255 ≡ true)
    × (passes (λ m. agree (responded m 3) (m / 8 % 2 == 1)) 255 ≡ true)
unfolding passes
slot_table = (refl, refl, refl, refl)

-- The four slots that a byte's mask names.
pub slots_of :
    (m : ℕ)
    → m < 2 ^ 8
    → (responded m 0 ≡ (m % 2 == 1))
      × (responded m 1 ≡ (m / 2 % 2 == 1))
      × (responded m 2 ≡ (m / 4 % 2 == 1))
      × (responded m 3 ≡ (m / 8 % 2 == 1))
slots_of m h = (
  agree_eq _ _ (passes_each _ 255 m slot_table.0 (omega arith)),
  agree_eq _ _ (passes_each _ 255 m slot_table.1 (omega arith)),
  agree_eq _ _ (passes_each _ 255 m slot_table.2 (omega arith)),
  agree_eq _ _ (passes_each _ 255 m slot_table.3 (omega arith)),
)

abbrev pub bit_of : Bool → ℕ
bit_of b = if b then 1 else 0

-- The flag byte is the sum of its fields, each in its place.
pub flags_sum :
    (mask tier : ℕ) (moving solved : Bool)
    → mask < 2 ^ 8
    → tier < 2 ^ 8
    → flags_of mask tier moving solved
      ≡ mask % 16 + tier % 4 * 2 ^ 4 + bit_of moving * 2 ^ 6 + bit_of solved * 2 ^ 7
unfolding flags_of
flags_sum mask tier moving solved hm ht =
    rw (and-fifteen mask hm, and-three tier ht)
      (ground (
        arith,
        bit_or-shifted 4 (tier % 4) (mask % 16) (omega arith),
        bit_or-shifted 6 (bit_of moving) (mask % 16 + tier % 4 * 2 ^ 4),
        bit_or-shifted 7 (bit_of solved) (mask % 16 + tier % 4 * 2 ^ 4 + bit_of moving * 2 ^ 6),
      ))

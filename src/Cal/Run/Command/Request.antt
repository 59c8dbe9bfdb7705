-- ===== src/Cal/Run/Command/Request.antt =====
-- A `cal <mm>` command and the run that it asks for.
use tag_testting.Common.{
  ℕ, ◌+◌, ◌-◌, ◌*◌, ◌≡◌, refl, Bool, true, false, ◌&&◌, not, none, some, List, [], ◌∷◌, u32, arith,
}
use tag_testting.Storage.{Nvs}
use tag_testting.Cal.Run.Command.{Console, is_digit, parse_digits, cal_run_parse_u32}

-- Digits only.
unfoldable pub all_digits : List ℕ → Bool
all_digits [] = true
all_digits (d ∷ ds) = is_digit d && all_digits ds

-- The number that digits write, after a value to their left.
unfoldable pub value_of : ℕ → List ℕ → ℕ
value_of v [] = v
value_of v (d ∷ ds) = value_of (v * 10 + (d - 48)) ds

word_step : (v k : ℕ) → u32 (u32 v * 10 + k) ≡ u32 (v * 10 + k)
word_step v k = omega arith

parse_digits-value_of :
    (v : ℕ) (ds : List ℕ) → all_digits ds ≡ true → parse_digits (u32 v) ds ≡ u32 (value_of v ds)
unfolding parse_digits all_digits value_of
parse_digits-value_of v [] h = refl
parse_digits-value_of v (d ∷ ds) h =
    ground (arith, word_step v (d - 48), parse_digits-value_of (v * 10 + (d - 48)) ds)

-- A string of digits is read as the number that it writes, modulo `2 ^ 32`.
pub parse-value_of :
    (d : ℕ) (ds : List ℕ)
    → all_digits (d ∷ ds) ≡ true
    → cal_run_parse_u32 (d ∷ ds) ≡ some (u32 (value_of 0 (d ∷ ds)))
unfolding cal_run_parse_u32 all_digits
parse-value_of d ds h = ground (arith, parse_digits-value_of 0 (d ∷ ds) h)

-- The command `cal <mm>` with its digits.
abbrev pub cal_command : ℕ → List ℕ → List ℕ
cal_command d ds = 99 ∷ 97 ∷ 108 ∷ 32 ∷ d ∷ ds

abbrev pub is_idle : {N : Nvs} → Console N → Bool
is_idle s = not s.run_busy && elim (s.queue) [ none ↦ true | some waiting ↦ false ]

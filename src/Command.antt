-- ===== src/Command.antt =====
-- src/tag_cmd.c: the commands that arrive over Bluetooth. The texts that `ble_log_send` is given are
-- values; what other modules only report is an argument (`Reports`), and what is forwarded or reset in
-- one that is not part of this state is an `Order`.
pub mod Handler
pub mod Tiers
pub mod Cases
pub mod Survival
pub mod Help
mod Tests
use tag_testting.Common.{
  ℕ, zero, suc, ◌+◌, ◌-◌, ◌*◌, Bool, true, false, ◌||◌, Option, none, some, List, [], ◌∷◌, ltb,
  ◌==◌, if◌then◌else◌, u32, u16, bytes_eq,
}
use Prim.Native.Char.{code}
use Prim.Native.String.{String}
use tag_testting.Net.Tiers.{
  TierParams, Table, tier_idle, tier_slow, tier_fast, set_tier_params, get_tier_params,
  reset_tier_params,
}
use tag_testting.Cal.Run.Command.{is_digit}
use tag_testting.PosCfg.Command.{skip_spaces}

-- The characters of a text.
abbrev pub codes : String → List ℕ
codes String.[] = []
codes (String.◌∷◌ c s) = code c ∷ codes s

-- The loop of `parse_u32` over the digits, with the flag `any`.
unfoldable pub u32_digits : ℕ → Bool → List ℕ → ℕ × Bool × List ℕ
u32_digits v any [] = (v, any, [])
u32_digits v any (b ∷ bs) =
    let rest = u32_digits (u32 (v * 10 + (b - 48))) true bs in
    if is_digit b then rest else (v, any, b ∷ bs)

-- `parse_u32`: the value and the string after it, or `none` for its false
unfoldable pub parse_u32 : List ℕ → Option (ℕ × List ℕ)
unfolding u32_digits skip_spaces
parse_u32 s =
    let (v, any, rest) = u32_digits 0 false (skip_spaces s) in
    if any then some (v, skip_spaces rest) else none

-- The lines about the tier table: the letter of the row and its two parameters.
pub data TierReply : Type 0 where
  row : ℕ → ℕ → ℕ → TierReply
  restored unknown : TierReply

-- `row[t]`
abbrev pub letter : ℕ → ℕ
letter t = if t == 0 then 73 else if t == 1 then 83 else 70

-- The line of a tier, with what the network layer will use.
unfoldable pub row_of : Table → ℕ → TierReply
row_of tbl t = let p = get_tier_params tbl t in row (letter t) p.listen_skip p.range_every

-- The tier of the first letter of the argument.
abbrev pub tier_of : ℕ → Option ℕ
tier_of b =
    if b == 102
    then some tier_fast
    else if b == 115
    then some tier_slow
    else if b == 105
    then some tier_idle
    else none

-- `(uint16_t)(v > 0xFFFF ? 0xFFFF : v)`
abbrev pub clamp16 : ℕ → ℕ
clamp16 v = if ltb 0xffff v then 0xffff else u16 v

-- One row set, and read back for the reply.
unfoldable pub set_row : Table → ℕ → ℕ → ℕ → Table × List TierReply
unfolding row_of
set_row tbl t skip every =
    let p : TierParams = record { listen_skip = clamp16 skip; range_every = clamp16 every } in
    let tbl' = set_tier_params tbl t p in (tbl', row_of tbl' t ∷ [])

-- The second number of a row.
unfoldable pub with_every : Table → ℕ → ℕ → Option (ℕ × List ℕ) → Table × List TierReply
unfolding set_row
with_every tbl t skip none = (tbl, unknown ∷ [])
with_every tbl t skip (some (every, rest)) = set_row tbl t skip every

-- The first number of a row.
unfoldable pub with_skip : Table → ℕ → Option (ℕ × List ℕ) → Table × List TierReply
unfolding with_every
with_skip tbl t none = (tbl, unknown ∷ [])
with_skip tbl t (some (skip, rest)) = with_every tbl t skip (parse_u32 rest)

-- The row that is named, and the numbers after its letter.
unfoldable pub with_row : Table → Option ℕ → List ℕ → Table × List TierReply
unfolding with_skip
with_row tbl none rest = (tbl, unknown ∷ [])
with_row tbl (some t) rest = with_skip tbl t (parse_u32 rest)

-- `cmd_tier`
unfoldable pub cmd_tier : Table → List ℕ → Table × List TierReply
unfolding row_of with_row
cmd_tier tbl [] = (tbl, row_of tbl 0 ∷ row_of tbl 1 ∷ row_of tbl 2 ∷ [])
cmd_tier tbl (b ∷ bs) =
    if bytes_eq (b ∷ bs) (codes "def")
    then (reset_tier_params tbl, restored ∷ [])
    else with_row tbl (tier_of b) bs

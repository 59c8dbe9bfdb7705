-- ===== src/Command/Tiers.antt =====
-- The command `pwr tier` of src/tag_cmd.c over the table of the network layer.
use tag_testting.Common.{
  ℕ, zero, suc, ◌+◌, ◌-◌, ◌*◌, ◌^◌, ◌≤◌, ◌<◌, ◌≡◌, ◌≢◌, refl, ◌∙◌, ap, Bool, true, false, some,
  List, [], ◌∷◌, ◌++◌, if◌then◌else◌, ltb, ◌==◌, replicate, arith, u32, bytes_eq,
}
use tag_testting.Net.Tiers.{Table, TierParams, set_tier_params, get_tier_params}
use tag_testting.PosCfg.Command.{skip_spaces}
use tag_testting.PosCfg.Parsing.{skip_all, number, Digits, no_space, ends_number}
use tag_testting.Command.{
  row, letter, tier_of, clamp16, row_of, set_row, with_every, with_skip, with_row, parse_u32,
  u32_digits, cmd_tier, codes,
}

number-u32 : (v : ℕ) (ds : List ℕ) → v ≤ number v ds
unfolding number
number-u32 v [] = omega arith
number-u32 v (b ∷ bs) = omega (arith, number-u32 (v * 10 + (b - 48)) bs)

abbrev seen : Bool → List ℕ → Bool
seen any [] = any
seen any (b ∷ bs) = true

seen_true : (bs : List ℕ) → seen true bs ≡ true
seen_true [] = refl
seen_true (b ∷ bs) = refl

-- A number below `2 ^ 32` is read as it is.
digits_lem :
    (ds rest : List ℕ) (v : ℕ) (any : Bool)
    → Digits ds
    → ends_number rest ≡ true
    → number v ds < 2 ^ 32
    → u32_digits v any (ds ++ rest) ≡ (number v ds, seen any ds, rest)
unfolding u32_digits number
digits_lem [] [] v any h e k = refl
digits_lem [] (b ∷ bs) v any h e k = ground arith
digits_lem (b ∷ bs) rest v any h e k =
    let v' = v * 10 + (b - 48) in
    let small : u32 v' ≡ v' = omega (arith, number-u32 v' bs, k) in
    rw (h.0, small) (digits_lem bs rest v' true h.1 e k ∙ rw (seen_true bs) refl)

parse_lem :
    (j k d : ℕ) (ds rest : List ℕ)
    → Digits (d ∷ ds)
    → ends_number (replicate k 32 ++ rest) ≡ true
    → number 0 (d ∷ ds) < 2 ^ 32
    → parse_u32 (replicate j 32 ++ (d ∷ ds ++ (replicate k 32 ++ rest)))
      ≡ some (number 0 (d ∷ ds), skip_spaces rest)
unfolding parse_u32
parse_lem j k d ds rest h e w =
    rw
      (
        skip_all j (d ∷ (ds ++ (replicate k 32 ++ rest))),
        no_space d (ds ++ (replicate k 32 ++ rest)) h.0,
        digits_lem (d ∷ ds) (replicate k 32 ++ rest) 0 false h e w,
      )
      (ap (λ r. some (number 0 (d ∷ ds), r)) (skip_all k rest))

-- The values that are used for a row that was set.
abbrev pub used_skip : ℕ → ℕ
used_skip v = if ltb 25 v then 25 else if v == 0 then 1 else v

abbrev pub used_every : ℕ → ℕ
used_every v = if ltb 0xffff v then 0xffff else if v == 0 then 1 else v

not_def : (b t : ℕ) (bs : List ℕ) → tier_of b ≡ some t → bytes_eq (b ∷ bs) (codes "def") ≡ false
not_def b t bs h = ground arith

tier_known : (b t : ℕ) → tier_of b ≡ some t → t < 3
tier_known b t h = ground arith

-- A row that is set is the one that is used, within its caps, and no other row changes.
set_used :
    (tbl : Table) (t skip every : ℕ)
    → t < 3
    → let p : TierParams = record { listen_skip = clamp16 skip; range_every = clamp16 every } in
      get_tier_params (set_tier_params tbl t p) t
      ≡ record { listen_skip = used_skip skip; range_every = used_every every }
unfolding get_tier_params set_tier_params
set_used tbl zero skip every h = ground arith
set_used tbl (suc zero) skip every h = ground arith
set_used tbl (suc (suc zero)) skip every h = ground arith
set_used tbl (suc (suc (suc t))) skip every h = absurd (omega arith)

set_others :
    (tbl : Table) (t j : ℕ) (p : TierParams)
    → t < 3
    → j < 3
    → j ≢ t
    → get_tier_params (set_tier_params tbl t p) j ≡ get_tier_params tbl j
unfolding get_tier_params set_tier_params
set_others tbl t j p h k ne = ground arith

-- The text of a row: its letter and two numbers, with spaces before, between and after them.
abbrev pub row_text : ℕ → ℕ → ℕ → ℕ → List ℕ → List ℕ → List ℕ
row_text b j k n skip every =
    b ∷ (replicate j 32 ++ (skip ++ (replicate (suc k) 32 ++ (every ++ (replicate n 32 ++ [])))))

ends_blank : (n : ℕ) → ends_number (replicate n 32 ++ []) ≡ true
ends_blank zero = refl
ends_blank (suc n) = refl

read_row :
    (tbl : Table) (b t j k n d e : ℕ) (ds es : List ℕ)
    → tier_of b ≡ some t
    → Digits (d ∷ ds)
    → Digits (e ∷ es)
    → number 0 (d ∷ ds) < 2 ^ 32
    → number 0 (e ∷ es) < 2 ^ 32
    → cmd_tier tbl (row_text b j k n (d ∷ ds) (e ∷ es))
      ≡ set_row tbl t (number 0 (d ∷ ds)) (number 0 (e ∷ es))
unfolding cmd_tier with_row with_skip with_every
read_row tbl b t j k n d e ds es known h g small small' =
    let tail = e ∷ es ++ (replicate n 32 ++ []) in
    rw (not_def b t _ known, known, parse_lem j (suc k) d ds tail h refl small)
      (ap (with_every tbl t (number 0 (d ∷ ds))) (
        ap parse_u32 (no_space e (es ++ (replicate n 32 ++ [])) g.0)
        ∙ parse_lem zero n e es [] g (ends_blank n) small'))

-- On the argument `f|s|i <skip> <every>`, with numbers below `2 ^ 32`, `cmd_tier` sets that row and no
-- other: the network layer then uses the skip between 1 and 25 and the cadence between 1 and 65535
-- that are nearest to the numbers in the argument, which the reply names, and the other two rows are
-- used as before. The cut of a command at 23 bytes by the caller comes before.
pub tier_command :
    (tbl : Table) (b t i j k n d e : ℕ) (ds es : List ℕ)
    → tier_of b ≡ some t
    → Digits (d ∷ ds)
    → Digits (e ∷ es)
    → number 0 (d ∷ ds) < 2 ^ 32
    → number 0 (e ∷ es) < 2 ^ 32
    → i < 3
    → i ≢ t
    → let (tbl', replies) = cmd_tier tbl (row_text b j k n (d ∷ ds) (e ∷ es)) in
      let skip = used_skip (number 0 (d ∷ ds)) in
      let every = used_every (number 0 (e ∷ es)) in
      (replies ≡ row (letter t) skip every ∷ [])
      × (get_tier_params tbl' t ≡ record { listen_skip = skip; range_every = every })
      × (get_tier_params tbl' i ≡ get_tier_params tbl i)
unfolding set_row row_of
tier_command tbl b t i j k n d e ds es known h g small small' hi ne =
    let ht = tier_known b t known in
    let used = set_used tbl t (number 0 (d ∷ ds)) (number 0 (e ∷ es)) ht in
    rw (read_row tbl b t j k n d e ds es known h g small small') (
      ap (λ (p : TierParams). row (letter t) p.listen_skip p.range_every ∷ []) used,
      used,
      set_others tbl t i _ ht hi ne,
    )

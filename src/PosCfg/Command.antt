-- ===== src/PosCfg/Command.antt =====
-- `parse_cm` and `pos_cfg_on_cmd` of src/pos_cfg.c. A C string is the list of its characters.
use tag_testting.Common.{
  ℕ, ◌+◌, ◌-◌, ◌*◌, Bool, true, false, not, ◌&&◌, ◌||◌, Option, none, some, List, [], ◌∷◌, ltb, leb,
  ◌==◌, if◌then◌else◌, get_or, take, drop, bytes_eq, ℤ, pos, negsuc,
}
use tag_testting.Storage.{Nvs}
use tag_testting.PosCfg.{PosCfg, heights_valid, pos_cfg_get, pos_cfg_set, signed16, bits16}

abbrev pub is_digit : ℕ → Bool
is_digit b = leb 48 b && leb b 57

-- `while (*s == ' ') s++`
unfoldable pub skip_spaces : List ℕ → List ℕ
skip_spaces [] = []
skip_spaces (b ∷ bs) = let rest = skip_spaces bs in if b == 32 then rest else b ∷ bs

-- The loop over the digits, with the flag `any`: `none` is the return at the cap.
unfoldable pub cm_digits : ℕ → Bool → List ℕ → Option (ℕ × Bool × List ℕ)
cm_digits v any [] = some (v, any, [])
cm_digits v any (b ∷ bs) =
    let v' = v * 10 + (b - 48) in
    let rest = cm_digits v' true bs in
    if is_digit b then if ltb 100000 v' then none else rest else some (v, any, b ∷ bs)

-- The rest of `parse_cm` after the digits.
unfoldable pub after_digits : Option (ℕ × Bool × List ℕ) → Option (ℕ × List ℕ)
unfolding skip_spaces
after_digits none = none
after_digits (some (v, any, rest)) = if any then some (v, skip_spaces rest) else none

-- `parse_cm`: the value and the string after it
unfoldable pub parse_cm : List ℕ → Option (ℕ × List ℕ)
parse_cm s = after_digits (cm_digits 0 false (skip_spaces s))

-- The lines that `ble_log_send` is given.
pub data PosReply : Type 0 where
  shown updated : ℕ → ℕ → PosReply
  usage range nvs : PosReply

-- The clamp of a height before it is printed.
unfoldable pub printed : ℤ → ℕ
printed (negsuc n) = 0
printed (pos n) = if ltb 9999 n then 9999 else n

abbrev pub is_end : List ℕ → Bool
is_end [] = true
is_end (b ∷ bs) = false

-- The second number of the command, if nothing follows it.
unfoldable pub second_height : ℕ → Option (ℕ × List ℕ) → Option (ℕ × ℕ)
second_height a none = none
second_height a (some (t, rest)) = if is_end rest then some (a, t) else none

unfoldable pub first_height : Option (ℕ × List ℕ) → Option (ℕ × ℕ)
unfolding second_height
first_height none = none
first_height (some (a, rest)) = second_height a (parse_cm rest)

-- Both numbers of the command.
unfoldable pub parse_heights : List ℕ → Option (ℕ × ℕ)
unfolding first_height
parse_heights p = first_height (parse_cm p)

-- `pos`
abbrev pub pos_prefix : List ℕ
pos_prefix = 112 ∷ 111 ∷ 115 ∷ []

-- `cmd[i]` of a C string, which ends in a zero
abbrev pub char_at : List ℕ → ℕ → ℕ
char_at s i = get_or s i 0

module _ (N : Nvs) where
  -- The end of `pos z <anchor_cm> <tag_cm>`, with both numbers.
  unfoldable pub set_heights : PosCfg N → ℕ → ℕ → PosCfg N × PosReply
  unfolding pos_cfg_get
  set_heights c a_cm t_cm =
      if not (heights_valid (pos a_cm) (pos t_cm))
      then (c, range)
      else (let (c', done) =
            pos_cfg_set N c (signed16 (bits16 (pos a_cm))) (signed16 (bits16 (pos t_cm))) in
          let h = pos_cfg_get N c' in
          (c', if not done then nvs else updated (printed h.anchor_h_cm) (printed h.tag_h_cm)))

  -- The answer to `pos z ` and what follows it.
  unfoldable pub answer : PosCfg N → Option (ℕ × ℕ) → PosCfg N × Option PosReply
  unfolding set_heights
  answer c none = (c, some usage)
  answer c (some (a, t)) = ((set_heights c a t).0, some (set_heights c a t).1)

  -- `pos_cfg_on_cmd`; `none` is its false, a command of someone else's.
  unfoldable pub pos_cfg_on_cmd : PosCfg N → List ℕ → PosCfg N × Option PosReply
  unfolding skip_spaces parse_heights answer pos_cfg_get printed
  pos_cfg_on_cmd c cmd =
      if not (bytes_eq (take 3 cmd) pos_prefix)
        || not (char_at cmd 3 == 0) && not (char_at cmd 3 == 32)
      then (c, none)
      else (let rest = skip_spaces (drop 3 cmd) in
          let h = pos_cfg_get N c in
          if bytes_eq rest (122 ∷ [])
          then (c, some (shown (printed h.anchor_h_cm) (printed h.tag_h_cm)))
          else if bytes_eq (take 2 rest) (122 ∷ 32 ∷ [])
          then answer c (parse_heights (drop 2 rest))
          else (c, some usage))

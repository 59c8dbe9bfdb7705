-- ===== src/Debug/Encode.antt =====
-- The pure encoders of src/pos_dbg.c. An `int16_t` is its 16 bits; a buffer or an array that may be
-- NULL is an `Option`.
use tag_testting.Common.{
  ℕ, zero, suc, ◌+◌, ◌*◌, ◌^◌, Bool, not, ◌&&◌, Option, none, some, List, bit_and, bit_or, ltb,
  ◌==◌, if◌then◌else◌, u8, get_or, set,
}
use tag_testting.Frame.Bytes.{put_u16}

abbrev pub magic_sweep : ℕ
magic_sweep = 0xa5

abbrev pub magic_set : ℕ
magic_set = 0xa6

abbrev pub magic_mark : ℕ
magic_mark = 0xa7

abbrev pub sweep_len : ℕ
sweep_len = 20

abbrev pub set_len : ℕ
set_len = 13

abbrev pub mark_len : ℕ
mark_len = 4

abbrev pub aid_none : ℕ
aid_none = 0xff

-- `POS_DBG_DT_OVF`
abbrev pub dt_ovf : ℕ
dt_ovf = 0xffff

-- The arguments of `pos_dbg_enc_sweep` after the buffer.
pub record SweepFields : Type 0 where
  pub seq : ℕ
  pub dt_ms : ℕ
  pub epoch : ℕ
  pub mask : ℕ
  pub tier : ℕ
  pub moving : Bool
  pub solved : Bool
  pub r_cm : Option (List ℕ)
  pub q : Option (List ℕ)
  pub res_cm : ℕ

-- `flags`
unfoldable pub flags_of : ℕ → ℕ → Bool → Bool → ℕ
flags_of mask tier moving solved =
    let low = u8 (bit_and mask 0x0f) in
    let tiers = u8 (bit_or low (u8 (bit_and tier 3 * 2 ^ 4))) in
    let moves = u8 (bit_or tiers (if moving then 2 ^ 6 else 0)) in
    u8 (bit_or moves (if solved then 2 ^ 7 else 0))

-- `(mask & (1u << i)) != 0`
abbrev pub responded : ℕ → ℕ → Bool
responded mask i = not (bit_and mask (2 ^ i) == 0)

-- The value that goes into slot `i`: the array's, or 0 without the array or the mask bit.
unfoldable pub slot_value : ℕ → Option (List ℕ) → ℕ → ℕ
slot_value mask none i = 0
slot_value mask (some values) i = if responded mask i then get_or values i 0 else 0

-- The loop that writes the ranges, with the rounds left.
unfoldable pub put_ranges : ℕ → ℕ → ℕ → Option (List ℕ) → List ℕ → List ℕ
unfolding put_u16 slot_value
put_ranges zero i mask r_cm buf = buf
put_ranges (suc n) i mask r_cm buf =
    put_ranges n (i + 1) mask r_cm (put_u16 buf (6 + 2 * i) (slot_value mask r_cm i))

-- The loop that writes the quality bytes, with the rounds left.
unfoldable pub put_quality : ℕ → ℕ → ℕ → Option (List ℕ) → List ℕ → List ℕ
unfolding slot_value
put_quality zero i mask q buf = buf
put_quality (suc n) i mask q buf =
    put_quality n (i + 1) mask q (set buf (14 + i) (slot_value mask q i))

-- The bytes that `pos_dbg_enc_sweep` writes, in the order of the code.
unfoldable pub put_sweep : SweepFields → List ℕ → List ℕ
unfolding flags_of put_u16 put_ranges put_quality
put_sweep s buf =
    let head = set (set buf 0 magic_sweep) 1 s.seq in
    let timed = set (put_u16 head 2 s.dt_ms) 4 s.epoch in
    let flagged = set timed 5 (flags_of s.mask s.tier s.moving s.solved) in
    let ranged = put_ranges 4 0 s.mask s.r_cm flagged in
    put_u16 (put_quality 4 0 s.mask s.q ranged) 18 s.res_cm

-- `pos_dbg_enc_sweep`: the buffer after it, and the length it returns.
unfoldable pub enc_sweep : Option (List ℕ) → ℕ → SweepFields → Option (List ℕ) × ℕ
unfolding put_sweep
enc_sweep none cap s = (none, 0)
enc_sweep (some buf) cap s =
    if ltb cap sweep_len then (some buf, 0) else (some (put_sweep s buf), sweep_len)

-- The loop of `pos_dbg_enc_set` over its two slots, with the rounds left.
unfoldable pub put_slots : ℕ → ℕ → List ℕ → List ℕ → List ℕ → List ℕ → List ℕ
unfolding put_u16
put_slots zero i aid x_cm y_cm buf = buf
put_slots (suc n) i aid x_cm y_cm buf =
    let off = 3 + i * 5 in
    let named = set buf off (get_or aid i 0) in
    let placed = put_u16 (put_u16 named (off + 1) (get_or x_cm i 0)) (off + 3) (get_or y_cm i 0) in
    put_slots n (i + 1) aid x_cm y_cm placed

-- The three arrays, if none of them is NULL.
unfoldable pub all_given :
    Option (List ℕ) → Option (List ℕ) → Option (List ℕ) → Option (List ℕ × List ℕ × List ℕ)
all_given (some aid) (some x_cm) (some y_cm) = some (aid, x_cm, y_cm)
all_given _ _ _ = none

-- `pos_dbg_enc_set`
unfoldable pub enc_set :
    Option (List ℕ)
    → ℕ
    → ℕ
    → ℕ
    → Option (List ℕ)
    → Option (List ℕ)
    → Option (List ℕ)
    → Option (List ℕ) × ℕ
unfolding all_given put_slots
enc_set none cap epoch base aid x_cm y_cm = (none, 0)
enc_set (some buf) cap epoch base aid x_cm y_cm =
    if ltb cap set_len then (some buf, 0) else elim (all_given aid x_cm y_cm) [
      | none ↦ (some buf, 0)
      | some (a, x, y) ↦
          (if not (base == 0) && not (base == 2) then (some buf, 0) else (
            some (put_slots 2 0 a x y (set (set (set buf 0 magic_set) 1 epoch) 2 base)),
            set_len,
          ))
    ]

-- `pos_dbg_enc_mark`
unfoldable pub enc_mark : Option (List ℕ) → ℕ → ℕ → ℕ → Option (List ℕ) × ℕ
enc_mark none cap seq mark_id = (none, 0)
enc_mark (some buf) cap seq mark_id =
    if ltb cap mark_len
    then (some buf, 0)
    else (some (set (set (set (set buf 0 magic_mark) 1 seq) 2 mark_id) 3 0), mark_len)

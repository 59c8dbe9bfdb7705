-- ===== src/Debug/Trips.antt =====
-- Round trips: what the encoders of src/pos_dbg.c write, read by the layouts of src/pos_dbg.h.
use tag_testting.Common.{
  ℕ, zero, suc, ◌%◌, ◌^◌, ◌<◌, ◌≤◌, ◌≡◌, refl, Option, none, some, List, [], ◌∷◌, if◌then◌else◌,
  get_or, length, take, drop, All, Bool-cases, arith, ltb, inl, inr,
}
use tag_testting.Frame.Bytes.{put_u16, get_u16, join16, cells, on_cells}
use tag_testting.Debug.Encode.{
  SweepFields, sweep_len, slot_value, put_ranges, put_quality, put_sweep, enc_sweep,
}
use tag_testting.Debug.Decode.{Reading, Record, sweep, decode, read_sweep}
use tag_testting.Debug.Flags.{flags_sum}

-- Every element of an array is a value of its C type.
abbrev pub Below : ℕ → Option (List ℕ) → Type 0
Below n none = Unit
Below n (some xs) = All (λ x. x < n) xs

-- The arguments of `pos_dbg_enc_sweep` are values of their C types.
pub record IsTyped (s : SweepFields) : Type 0 where
  pub dt_word : s.dt_ms < 2 ^ 16
  pub mask_byte : s.mask < 2 ^ 8
  pub tier_byte : s.tier < 2 ^ 8
  pub res_word : s.res_cm < 2 ^ 16
  pub ranges_word : Below (2 ^ 16) s.r_cm

-- The four slots of an array that the mask leaves.
abbrev pub masked : ℕ → Option (List ℕ) → List ℕ
masked mask values =
    slot_value mask values 0
    ∷ slot_value mask values 1
    ∷ slot_value mask values 2
    ∷ slot_value mask values 3
    ∷ []

-- What a SWEEP record is to say.
abbrev pub reading_of : SweepFields → Reading
reading_of s = record {
  seq = s.seq;
  dt_ms = s.dt_ms;
  epoch = s.epoch;
  mask = s.mask % 16;
  tier = s.tier % 4;
  moving = s.moving;
  solved = s.solved;
  ranges = masked s.mask s.r_cm;
  quality = masked s.mask s.q;
  res_cm = s.res_cm;
}

pub get_or_below : (n : ℕ) (xs : List ℕ) (i : ℕ) → 0 < n → All (λ x. x < n) xs → get_or xs i 0 < n
get_or_below n [] i p h = p
get_or_below n (x ∷ xs) zero p h = h.0
get_or_below n (x ∷ xs) (suc i) p h = get_or_below n xs i p h.1

pub slot_value-Below :
    (n mask : ℕ) (values : Option (List ℕ)) (i : ℕ)
    → 0 < n
    → Below n values
    → slot_value mask values i < n
unfolding slot_value
slot_value-Below n mask none i p h = p
slot_value-Below n mask (some xs) i p h = ground (arith, get_or_below n xs i)

sweep_cells :
    (s : SweepFields) (f : ℕ → ℕ) (rest : List ℕ)
    → IsTyped s
    → (decode (take 20 (put_sweep s (cells 20 f rest))) ≡ some (sweep (reading_of s)))
      × (drop 20 (put_sweep s (cells 20 f rest)) ≡ rest)
unfolding decode put_sweep put_ranges put_quality put_u16 get_u16 read_sweep
sweep_cells s f rest h = ground (
  arith,
  flags_sum s.mask s.tier s.moving s.solved,
  join16 s.dt_ms,
  join16 s.res_cm,
  join16 (slot_value s.mask s.r_cm 0),
  join16 (slot_value s.mask s.r_cm 1),
  join16 (slot_value s.mask s.r_cm 2),
  join16 (slot_value s.mask s.r_cm 3),
  slot_value-Below (2 ^ 16) s.mask s.r_cm 0,
  slot_value-Below (2 ^ 16) s.mask s.r_cm 1,
  slot_value-Below (2 ^ 16) s.mask s.r_cm 2,
  slot_value-Below (2 ^ 16) s.mask s.r_cm 3,
)

-- What an encoder owes: with no buffer, a short one or nothing to say it returns 0 and writes nothing;
-- else it returns the record's length, its bytes read as the record, and those after it are left.
abbrev pub Encoded : Option (List ℕ) → ℕ → ℕ → Option Record → Option (List ℕ) × ℕ → Type 0
Encoded none capacity len said r = r ≡ (none, 0)
Encoded (some buf) capacity len none r = r ≡ (some buf, 0)
Encoded (some buf) capacity len (some said) (none, n) = ⊥
Encoded (some buf) capacity len (some said) (some out, n) =
    if ltb capacity len
    then (n ≡ 0) × (out ≡ buf)
    else (n ≡ len) × (decode (take len out) ≡ some said) × (drop len out ≡ drop len buf)

-- The capacity that the caller gives is one that its buffer has.
abbrev pub Holds : Option (List ℕ) → ℕ → Type 0
Holds none capacity = Unit
Holds (some buf) capacity = capacity ≤ length buf

put_sweep_lem :
    (s : SweepFields) (buf : List ℕ)
    → IsTyped s
    → 20 ≤ length buf
    → (decode (take 20 (put_sweep s buf)) ≡ some (sweep (reading_of s)))
      × (drop 20 (put_sweep s buf) ≡ drop 20 buf)
put_sweep_lem s buf h n =
    on_cells 20 buf
      (λ b rest.
        (decode (take 20 (put_sweep s b)) ≡ some (sweep (reading_of s)))
        × (drop 20 (put_sweep s b) ≡ rest))
      n (λ f rest. sweep_cells s f rest h)

-- An encoder that tests for room first meets its contract if its bytes do.
pub Encoded-fits :
    (buf out : List ℕ) (capacity len : ℕ) (said : Record)
    → capacity ≤ length buf
    → (len ≤ length buf → (decode (take len out) ≡ some said) × (drop len out ≡ drop len buf))
    → Encoded
        (some buf)
        capacity
        len
        (some said)
        (if ltb capacity len then (some buf, 0) else (some out, len))
Encoded-fits buf out capacity len said k written = elim (Bool-cases (ltb capacity len)) [
  | inl short ↦ rw short (rw short (refl, refl))
  | inr room ↦ let w = written (ground arith) in rw room (rw room (refl, w.0, w.1))
]

-- A sweep is encoded into 20 bytes that read as it: every field as given, the low four bits of the
-- mask, the low two of the tier, and 0 in each range and quality slot whose mask bit is clear or
-- whose array is NULL. Without room for 20 bytes nothing is written.
pub sweep_round_trip :
    (buf : Option (List ℕ)) (capacity : ℕ) (s : SweepFields)
    → IsTyped s
    → Holds buf capacity
    → Encoded buf capacity sweep_len (some (sweep (reading_of s))) (enc_sweep buf capacity s)
unfolding enc_sweep
sweep_round_trip none capacity s h k = refl
sweep_round_trip (some buf) capacity s h k =
    Encoded-fits buf (put_sweep s buf) capacity sweep_len (sweep (reading_of s)) k
      (put_sweep_lem s buf h)

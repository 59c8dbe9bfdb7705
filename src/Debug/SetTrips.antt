-- ===== src/Debug/SetTrips.antt =====
-- Round trips of the SET and MARK records of src/pos_dbg.c.
use tag_testting.Common.{
  ℕ, ◌^◌, ◌<◌, ◌≤◌, ◌≡◌, refl, Option, none, some, List, ◌==◌, if◌then◌else◌, get_or, set, length,
  take, drop, All, Bool-cases, arith, inl, inr,
}
use tag_testting.Frame.Bytes.{put_u16, get_u16, join16, cells, on_cells}
use tag_testting.Debug.Encode.{
  set_len, mark_len, magic_set, magic_mark, put_slots, enc_set, enc_mark, all_given,
}
use tag_testting.Debug.Decode.{Record, slots, mark, decode, read_slot}
use tag_testting.Debug.Trips.{Below, Holds, Encoded, Encoded-fits, get_or_below}

-- What a SET record is to say: the two slots of the arrays.
abbrev pub pair_of : ℕ → ℕ → List ℕ → List ℕ → List ℕ → Record
pair_of epoch base a x y =
    slots epoch base (record { aid = get_or a 0 0; x = get_or x 0 0; y = get_or y 0 0 })
      (record { aid = get_or a 1 0; x = get_or x 1 0; y = get_or y 1 0 })

-- The record that `pos_dbg_enc_set` is asked for, if the arguments are good.
abbrev pub asked : ℕ → ℕ → Option (List ℕ) → Option (List ℕ) → Option (List ℕ) → Option Record
asked epoch base (some a) (some x) (some y) =
    if base == 0
    then some (pair_of epoch base a x y)
    else if base == 2
    then some (pair_of epoch base a x y)
    else none
asked epoch base _ _ _ = none

set-cells :
    (epoch base : ℕ) (a x y : List ℕ) (f : ℕ → ℕ) (rest : List ℕ)
    → All (λ v. v < 2 ^ 16) x
    → All (λ v. v < 2 ^ 16) y
    → (decode (
          take 13
            (put_slots 2 0 a x y (set (set (set (cells 13 f rest) 0 magic_set) 1 epoch) 2 base)))
        ≡ some (pair_of epoch base a x y))
      × (drop 13
            (put_slots 2 0 a x y (set (set (set (cells 13 f rest) 0 magic_set) 1 epoch) 2 base))
          ≡ rest)
unfolding decode put_slots put_u16 get_u16 read_slot
set-cells epoch base a x y f rest hx hy = ground (
  arith,
  join16 (get_or x 0 0),
  join16 (get_or x 1 0),
  join16 (get_or y 0 0),
  join16 (get_or y 1 0),
  get_or_below (2 ^ 16) x 0,
  get_or_below (2 ^ 16) x 1,
  get_or_below (2 ^ 16) y 0,
  get_or_below (2 ^ 16) y 1,
)

put_slots_lem :
    (epoch base : ℕ) (a x y buf : List ℕ)
    → All (λ v. v < 2 ^ 16) x
    → All (λ v. v < 2 ^ 16) y
    → 13 ≤ length buf
    → (decode (take 13 (put_slots 2 0 a x y (set (set (set buf 0 magic_set) 1 epoch) 2 base)))
        ≡ some (pair_of epoch base a x y))
      × (drop 13 (put_slots 2 0 a x y (set (set (set buf 0 magic_set) 1 epoch) 2 base))
          ≡ drop 13 buf)
put_slots_lem epoch base a x y buf hx hy n =
    on_cells 13 buf
      (λ b rest.
        (decode (take 13 (put_slots 2 0 a x y (set (set (set b 0 magic_set) 1 epoch) 2 base)))
          ≡ some (pair_of epoch base a x y))
        × (drop 13 (put_slots 2 0 a x y (set (set (set b 0 magic_set) 1 epoch) 2 base)) ≡ rest))
      n (λ f rest. set-cells epoch base a x y f rest hx hy)

-- The SET record of a pair of slots reads as its epoch, base and slots. An array that is NULL, a base
-- other than 0 and 2, or too little room writes nothing.
pub set_round_trip :
    (buf : Option (List ℕ)) (capacity epoch base : ℕ) (aid x y : Option (List ℕ))
    → Below (2 ^ 16) x
    → Below (2 ^ 16) y
    → Holds buf capacity
    → Encoded buf capacity set_len
        (asked epoch base aid x y)
        (enc_set buf capacity epoch base aid x y)
unfolding enc_set all_given
set_round_trip none capacity epoch base aid x y hx hy k = refl
set_round_trip (some buf) capacity epoch base none x y hx hy k = ground arith
set_round_trip (some buf) capacity epoch base (some a) none y hx hy k = ground arith
set_round_trip (some buf) capacity epoch base (some a) (some x) none hx hy k = ground arith
set_round_trip (some buf) capacity epoch base (some a) (some x) (some y) hx hy k =
    let out = put_slots 2 0 a x y (set (set (set buf 0 magic_set) 1 epoch) 2 base) in
    let fits =
      Encoded-fits buf out capacity set_len (pair_of epoch base a x y) k
        (put_slots_lem epoch base a x y buf hx hy) in
    elim (Bool-cases (base == 0)) [
      | inl low ↦ rw low fits
      | inr other ↦ elim (Bool-cases (base == 2)) [
        | inl high ↦ rw (other, high) fits
        | inr wrong ↦ rw (other, wrong) (ground arith)
      ]
    ]

mark_cells :
    (seq mark_id : ℕ) (f : ℕ → ℕ) (rest : List ℕ)
    → (decode (take 4 (set (set (set (set (cells 4 f rest) 0 magic_mark) 1 seq) 2 mark_id) 3 0))
        ≡ some (mark seq mark_id))
      × (drop 4 (set (set (set (set (cells 4 f rest) 0 magic_mark) 1 seq) 2 mark_id) 3 0) ≡ rest)
unfolding decode
mark_cells seq mark_id f rest = (refl, refl)

-- The MARK record of a sweep reads as that sweep's number and the mark's. Without room for 4 bytes
-- nothing is written.
pub mark_round_trip :
    (buf : Option (List ℕ)) (capacity seq mark_id : ℕ)
    → Holds buf capacity
    → Encoded buf capacity mark_len (some (mark seq mark_id)) (enc_mark buf capacity seq mark_id)
unfolding enc_mark
mark_round_trip none capacity seq mark_id k = refl
mark_round_trip (some buf) capacity seq mark_id k =
    Encoded-fits buf (set (set (set (set buf 0 magic_mark) 1 seq) 2 mark_id) 3 0) capacity mark_len
      (mark seq mark_id) k
      (λ n.
        on_cells 4 buf
          (λ b rest.
            (decode (take 4 (set (set (set (set b 0 magic_mark) 1 seq) 2 mark_id) 3 0))
              ≡ some (mark seq mark_id))
            × (drop 4 (set (set (set (set b 0 magic_mark) 1 seq) 2 mark_id) 3 0) ≡ rest))
          n (λ f rest. mark_cells seq mark_id f rest))

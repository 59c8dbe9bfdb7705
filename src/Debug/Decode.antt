-- ===== src/Debug/Decode.antt =====
-- The listener's side of src/pos_dbg.h: what a host reads out of one record, by the layouts that the
-- header gives. This is the description that the encoders are held against.
use tag_testting.Common.{
  ℕ, ◌+◌, ◌/◌, ◌%◌, Bool, Option, none, some, List, [], ◌∷◌, ◌==◌, if◌then◌else◌, length,
}
use tag_testting.Frame.Bytes.{byte, get_u16}
use tag_testting.Debug.Encode.{magic_sweep, magic_set, magic_mark, sweep_len, set_len, mark_len}

-- A SWEEP record as read.
pub record Reading : Type 0 where
  pub seq : ℕ
  pub dt_ms : ℕ
  pub epoch : ℕ
  pub mask : ℕ
  pub tier : ℕ
  pub moving : Bool
  pub solved : Bool
  pub ranges : List ℕ
  pub quality : List ℕ
  pub res_cm : ℕ

-- One anchor slot of a SET record.
pub record Slot : Type 0 where
  pub aid : ℕ
  pub x : ℕ
  pub y : ℕ

-- What a record says: a sweep; the epoch, the base and the two slots of a set; a mark.
pub data Record : Type 0 where
  sweep : Reading → Record
  slots : ℕ → ℕ → Slot → Slot → Record
  mark : ℕ → ℕ → Record

-- Bytes 0 to 19 of the SWEEP layout.
unfoldable pub read_sweep : List ℕ → Reading
read_sweep b = record {
  seq = byte b 1;
  dt_ms = get_u16 b 2;
  epoch = byte b 4;
  mask = byte b 5 % 16;
  tier = byte b 5 / 16 % 4;
  moving = byte b 5 / 64 % 2 == 1;
  solved = byte b 5 / 128 == 1;
  ranges = get_u16 b 6 ∷ get_u16 b 8 ∷ get_u16 b 10 ∷ get_u16 b 12 ∷ [];
  quality = byte b 14 ∷ byte b 15 ∷ byte b 16 ∷ byte b 17 ∷ [];
  res_cm = get_u16 b 18;
}

-- The slot at an offset of the SET layout.
unfoldable pub read_slot : List ℕ → ℕ → Slot
read_slot b off = record { aid = byte b off; x = get_u16 b (off + 1); y = get_u16 b (off + 3) }

-- A notification that is not a record of the log is text, and gives nothing.
unfoldable pub decode : List ℕ → Option Record
unfolding read_sweep read_slot
decode b =
    if byte b 0 == magic_sweep
    then if length b == sweep_len then some (sweep (read_sweep b)) else none
    else if byte b 0 == magic_set
    then if length b == set_len
      then some (slots (byte b 1) (byte b 2) (read_slot b 3) (read_slot b 8))
      else none
    else if byte b 0 == magic_mark
    then if length b == mark_len then some (mark (byte b 1) (byte b 2)) else none
    else none

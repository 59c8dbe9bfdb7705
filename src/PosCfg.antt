-- ===== src/PosCfg.antt =====
-- src/pos_cfg.c: the heights of the anchors and of the tag, in flash under the id 4, and the command
-- `pos`. Heights are signed centimetres; in flash an `int16_t` is its 16 bits.
pub mod Command
pub mod Bounds
pub mod Reload
pub mod Parsing
pub mod Setting
mod Tests
use tag_testting.Common.{
  ℕ, ◌+◌, ◌-◌, ◌^◌, Bool, true, false, not, ◌&&◌, Option, none, some, List, [], ◌∷◌, ltb, ◌==◌,
  if◌then◌else◌, u8, u16, get_or, ℤ, pos, negsuc, leb_ℤ,
}
use tag_testting.Storage.{Nvs, Storage, storage_read, storage_write}
use tag_testting.Cal.{crc32}
use tag_testting.Cal.Record.{word16, word32_bytes, at16, at32}

abbrev pub pos_cfg_nvs_id : ℕ
pos_cfg_nvs_id = 4

abbrev pub pos_cfg_magic : ℕ
pos_cfg_magic = 0x504f_5343

abbrev pub pos_cfg_version : ℕ
pos_cfg_version = 1

-- `sizeof(struct pos_cfg_record)`
abbrev pub record_len : ℕ
record_len = 16

-- `POS_CFG_H_MAX_CM`
abbrev pub h_max_cm : ℕ
h_max_cm = 1500

-- `struct pos_cfg_record`
pub record PosRecord : Type 0 where
  pub magic : ℕ
  pub version : ℕ
  pub pad : ℕ
  pub anchor_h : ℕ
  pub tag_h : ℕ
  pub pad2 : ℕ
  pub crc : ℕ

-- `struct pos_cfg`
pub record Heights : Type 0 where
  pub anchor_h_cm : ℤ
  pub tag_h_cm : ℤ

-- `POS_CFG_DEF_ANCHOR_H_CM` and `POS_CFG_DEF_TAG_H_CM`, the initial value of `active`
abbrev pub defaults : Heights
defaults = record { anchor_h_cm = pos 270; tag_h_cm = pos 110 }

-- The integer of the 16 bits, and the bits of an integer: the casts to `int16_t` and from it.
abbrev pub signed16 : ℕ → ℤ
signed16 w = if ltb w (2 ^ 15) then pos w else negsuc (2 ^ 16 - w - 1)

abbrev pub bits16 : ℤ → ℕ
bits16 (pos n) = u16 n
bits16 (negsuc n) = 2 ^ 16 - 1 - u16 n

-- `heights_valid`
unfoldable pub heights_valid : ℤ → ℤ → Bool
heights_valid anchor_h_cm tag_h_cm =
    leb_ℤ (pos 0) anchor_h_cm
    && leb_ℤ anchor_h_cm (pos h_max_cm)
    && leb_ℤ (pos 0) tag_h_cm
    && leb_ℤ tag_h_cm (pos h_max_cm)

-- The bytes before the `crc32` field, and a rest.
unfoldable pub covered : PosRecord → List ℕ → List ℕ
covered r rest =
    word32_bytes r.magic
      (u8 r.version ∷ u8 r.pad ∷ word16 r.anchor_h (word16 r.tag_h (word16 r.pad2 rest)))

unfoldable pub to_bytes : PosRecord → List ℕ
unfolding covered
to_bytes r = covered r (word32_bytes r.crc [])

unfoldable pub from_bytes : List ℕ → PosRecord
from_bytes b = record {
  magic = at32 b 0;
  version = get_or b 4 0;
  pad = get_or b 5 0;
  anchor_h = at16 b 6;
  tag_h = at16 b 8;
  pad2 = at16 b 10;
  crc = at32 b 12;
}

-- `record_finalize`
unfoldable pub record_finalize : PosRecord → PosRecord
unfolding covered
record_finalize r =
    let r' = record r { magic = pos_cfg_magic; version = pos_cfg_version; pad = 0; pad2 = 0 } in
    record r' { crc = crc32 (covered r' []) }

-- `record_valid`
unfoldable pub record_valid : PosRecord → Bool
unfolding covered
record_valid r =
    if not (r.magic == pos_cfg_magic)
    then false
    else if not (r.version == pos_cfg_version)
    then false
    else r.crc == crc32 (covered r [])

-- The test of `pos_cfg_init` on a record of which `got` bytes were read, and its heights.
unfoldable pub checked : PosRecord → ℕ → Option Heights
unfolding record_valid heights_valid
checked r got =
    if (got == record_len)
      && record_valid r
      && heights_valid (signed16 r.anchor_h) (signed16 r.tag_h)
    then some (record { anchor_h_cm = signed16 r.anchor_h; tag_h_cm = signed16 r.tag_h })
    else none

-- The heights that `pos_cfg_init` accepts in what `storage_read` gave.
unfoldable pub accepted : Option (List ℕ × ℕ) → Option Heights
unfolding checked
accepted none = none
accepted (some (b, got)) = checked (from_bytes b) got

module _ (N : Nvs) where
  -- The static `active`, and the storage.
  pub record PosCfg : Type 0 where
    pub active : Heights
    pub storage : Storage N

  -- The heights that a record gave, or the defaults.
  unfoldable pub configure : PosCfg → Option Heights → PosCfg × Bool
  configure c none = (record c { active = defaults }, false)
  configure c (some h) = (record c { active = h }, true)

  -- `pos_cfg_init`; true is its 0, and the negative results are one false.
  unfoldable pub pos_cfg_init : PosCfg → PosCfg × Bool
  unfolding accepted configure
  pos_cfg_init c = configure c (accepted (storage_read N c.storage pos_cfg_nvs_id record_len))

  -- `pos_cfg_get`
  unfoldable pub pos_cfg_get : PosCfg → Heights
  pos_cfg_get c = c.active

  -- The record that `pos_cfg_set` writes.
  unfoldable pub record_of : ℤ → ℤ → PosRecord
  unfolding record_finalize
  record_of anchor_h_cm tag_h_cm = record_finalize (record {
    magic = 0;
    version = 0;
    pad = 0;
    anchor_h = bits16 anchor_h_cm;
    tag_h = bits16 tag_h_cm;
    pad2 = 0;
    crc = 0;
  })

  -- `pos_cfg_set`; true is its 0.
  unfoldable pub pos_cfg_set : PosCfg → ℤ → ℤ → PosCfg × Bool
  unfolding heights_valid
  pos_cfg_set c anchor_h_cm tag_h_cm =
      if not (heights_valid anchor_h_cm tag_h_cm)
      then (c, false)
      else (let item = to_bytes (record_of anchor_h_cm tag_h_cm) in
          let (storage', written) = storage_write N c.storage pos_cfg_nvs_id item in
          if not written then (record c { storage = storage' }, false) else (
            record {
              active = record { anchor_h_cm = anchor_h_cm; tag_h_cm = tag_h_cm };
              storage = storage';
            },
            true,
          ))

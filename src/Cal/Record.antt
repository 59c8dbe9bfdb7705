-- ===== src/Cal/Record.antt =====
-- `struct cal_record` of src/cal_math.h: its bytes on the little-endian target, finalising, checking.
use tag_testting.Common.{
  ℕ, ◌+◌, ◌*◌, ◌/◌, ◌^◌, ◌<◌, ◌≡◌, List, [], ◌∷◌, Bool, false, ◌==◌, if◌then◌else◌, u8, get_or,
  arith, not,
}
use tag_testting.Cal.{crc32}

abbrev pub cal_magic : ℕ
cal_magic = 0xca11_b000

abbrev pub cal_version : ℕ
cal_version = 1

-- `sizeof(struct cal_record)`
abbrev pub record_len : ℕ
record_len = 24

pub record CalRecord : Type 0 where
  pub magic : ℕ
  pub version : ℕ
  pub phy_option : ℕ
  pub tx_ant_dly : ℕ
  pub rx_ant_dly : ℕ
  pub pad : ℕ
  pub ref_mm : ℕ
  pub residual_mm : ℕ
  pub pad2 : ℕ
  pub crc : ℕ

-- A zeroed record.
abbrev pub zeroed : CalRecord
zeroed = record {
  magic = 0;
  version = 0;
  phy_option = 0;
  tx_ant_dly = 0;
  rx_ant_dly = 0;
  pad = 0;
  ref_mm = 0;
  residual_mm = 0;
  pad2 = 0;
  crc = 0;
}

-- A `uint16_t` in memory, before a rest.
abbrev pub word16 : ℕ → List ℕ → List ℕ
word16 v rest = u8 v ∷ u8 (v / 2 ^ 8) ∷ rest

-- A `uint32_t` in memory, before a rest.
abbrev pub word32_bytes : ℕ → List ℕ → List ℕ
word32_bytes v rest = u8 v ∷ u8 (v / 2 ^ 8) ∷ u8 (v / 2 ^ 16) ∷ u8 (v / 2 ^ 24) ∷ rest

-- The bytes before the `crc32` field, and a rest.
unfoldable pub covered : CalRecord → List ℕ → List ℕ
covered r rest = word32_bytes r.magic (
    u8 r.version
    ∷ u8 r.phy_option
    ∷ word16 r.tx_ant_dly (
        word16 r.rx_ant_dly
          (word16 r.pad (word32_bytes r.ref_mm (word16 r.residual_mm (word16 r.pad2 rest))))))

unfoldable pub to_bytes : CalRecord → List ℕ
unfolding covered
to_bytes r = covered r (word32_bytes r.crc [])

abbrev pub at16 : List ℕ → ℕ → ℕ
at16 b o = get_or b o 0 + 2 ^ 8 * get_or b (o + 1) 0

abbrev pub at32 : List ℕ → ℕ → ℕ
at32 b o =
    get_or b o 0
    + 2 ^ 8 * get_or b (o + 1) 0
    + 2 ^ 16 * get_or b (o + 2) 0
    + 2 ^ 24 * get_or b (o + 3) 0

unfoldable pub from_bytes : List ℕ → CalRecord
from_bytes b = record {
  magic = at32 b 0;
  version = get_or b 4 0;
  phy_option = get_or b 5 0;
  tx_ant_dly = at16 b 6;
  rx_ant_dly = at16 b 8;
  pad = at16 b 10;
  ref_mm = at32 b 12;
  residual_mm = at16 b 16;
  pad2 = at16 b 18;
  crc = at32 b 20;
}

-- `cal_record_finalize`
unfoldable pub finalize : CalRecord → CalRecord
finalize r =
    let r' = record r { magic = cal_magic; version = cal_version; pad = 0; pad2 = 0 } in
    record r' { crc = crc32 (covered r' []) }

-- `cal_record_valid`
unfoldable pub is_record_valid : CalRecord → ℕ → Bool
is_record_valid r expected_phy =
    if not (r.magic == cal_magic)
    then false
    else if not (r.version == cal_version)
    then false
    else if not (r.phy_option == expected_phy)
    then false
    else r.crc == crc32 (covered r [])

-- The fields are words of their width.
pub record IsPacked (r : CalRecord) : Type 0 where
  pub magic_word : r.magic < 2 ^ 32
  pub version_byte : r.version < 2 ^ 8
  pub phy_byte : r.phy_option < 2 ^ 8
  pub tx_word : r.tx_ant_dly < 2 ^ 16
  pub rx_word : r.rx_ant_dly < 2 ^ 16
  pub pad_word : r.pad < 2 ^ 16
  pub ref_word : r.ref_mm < 2 ^ 32
  pub residual_word : r.residual_mm < 2 ^ 16
  pub pad2_word : r.pad2 < 2 ^ 16
  pub crc_word : r.crc < 2 ^ 32

pub from_bytes-to_bytes : (r : CalRecord) → IsPacked r → from_bytes (to_bytes r) ≡ r
unfolding from_bytes to_bytes
from_bytes-to_bytes r h = ground arith

crc32-lt : (xs : List ℕ) → crc32 xs < 2 ^ 32
unfolding crc32
crc32-lt xs = omega arith

pub finalize-IsPacked :
    (r : CalRecord)
    → r.phy_option < 2 ^ 8
    → r.tx_ant_dly < 2 ^ 16
    → r.rx_ant_dly < 2 ^ 16
    → r.ref_mm < 2 ^ 32
    → r.residual_mm < 2 ^ 16
    → IsPacked (finalize r)
unfolding finalize
finalize-IsPacked r p t x f m =
    let r' = record r { magic = cal_magic; version = cal_version; pad = 0; pad2 = 0 } in
    ground (arith, crc32-lt (covered r' []))

-- A finalised record is accepted for its own PHY option, and for no other.
pub valid-finalize :
    (r : CalRecord) (phy : ℕ) → is_record_valid (finalize r) phy ≡ (r.phy_option == phy)
unfolding is_record_valid finalize covered
valid-finalize r phy = ground arith

-- ===== src/PosCfg/Reload.antt =====
-- Heights that were set are the ones after a reset.
use tag_testting.Common.{
  ℕ, ◌^◌, ◌<◌, ◌≡◌, refl, ◌∙◌, ap, true, some, length, take, ℤ, pos, negsuc, arith, u8, List, ◌/◌,
  [], ◌∷◌,
}
use tag_testting.Storage.{Nvs, IsLawful, storage_read, storage_write}
use tag_testting.Storage.Laws.{read-storage_write}
use tag_testting.Cal.{crc32}
use tag_testting.PosCfg.{
  PosCfg, PosRecord, heights_valid, covered, to_bytes, from_bytes, record_finalize, record_valid,
  accepted, record_of, configure, pos_cfg_init, pos_cfg_set, pos_cfg_nvs_id, record_len, signed16,
  bits16,
}

-- The fields of a record are words of their width.
record IsPacked (r : PosRecord) : Type 0 where
  magic_word : r.magic < 2 ^ 32
  version_byte : r.version < 2 ^ 8
  pad_byte : r.pad < 2 ^ 8
  anchor_word : r.anchor_h < 2 ^ 16
  tag_word : r.tag_h < 2 ^ 16
  pad2_word : r.pad2 < 2 ^ 16
  crc_word : r.crc < 2 ^ 32

from_bytes-to_bytes : (r : PosRecord) → IsPacked r → from_bytes (to_bytes r) ≡ r
unfolding from_bytes to_bytes
from_bytes-to_bytes r h = ground arith

take-to_bytes : (r : PosRecord) → (take 16 (to_bytes r) ≡ to_bytes r) × (length (to_bytes r) ≡ 16)
unfolding to_bytes
take-to_bytes r = (refl, refl)

crc32-lt : (xs : List ℕ) → crc32 xs < 2 ^ 32
unfolding crc32
crc32-lt xs = omega arith

bits16-lt : (z : ℤ) → bits16 z < 2 ^ 16
bits16-lt (pos n) = omega arith
bits16-lt (negsuc n) = omega arith

record_of-IsPacked : (N : Nvs) (a t : ℤ) → IsPacked (record_of N a t)
unfolding record_of record_finalize
record_of-IsPacked N a t = ground (
  arith,
  bits16-lt a,
  bits16-lt t,
  crc32-lt (
      67
      ∷ 83
      ∷ 79
      ∷ 80
      ∷ 1
      ∷ 0
      ∷ u8 (bits16 a)
      ∷ u8 (bits16 a / 2 ^ 8)
      ∷ u8 (bits16 t)
      ∷ u8 (bits16 t / 2 ^ 8)
      ∷ 0
      ∷ 0
      ∷ []),
)

-- Heights in range survive their 16 bits.
pub survive :
    (a t : ℤ) → heights_valid a t ≡ true → (signed16 (bits16 a) ≡ a) × (signed16 (bits16 t) ≡ t)
unfolding heights_valid
survive (pos a) (pos t) h = ground arith
survive (pos a) (negsuc t) h = ground arith
survive (negsuc a) (pos t) h = ground arith
survive (negsuc a) (negsuc t) h = ground arith

valid-record_of :
    (N : Nvs) (a t : ℤ)
    → (record_valid (record_of N a t) ≡ true)
      × ((record_of N a t).anchor_h ≡ bits16 a)
      × ((record_of N a t).tag_h ≡ bits16 t)
unfolding record_valid record_of record_finalize covered
valid-record_of N a t = ground arith

-- The record that `pos_cfg_set` writes is accepted with its heights.
accepted-record_of :
    (N : Nvs) (a t : ℤ)
    → heights_valid a t ≡ true
    → accepted (some (take 16 (to_bytes (record_of N a t)), length (to_bytes (record_of N a t))))
      ≡ some (record { anchor_h_cm = a; tag_h_cm = t })
unfolding accepted
accepted-record_of N a t h =
    let r = record_of N a t in
    let v = valid-record_of N a t in
    let s = survive a t h in
    rw ((take-to_bytes r).0, (take-to_bytes r).1, from_bytes-to_bytes r (record_of-IsPacked N a t))
      (rw (v.0, v.1, v.2, s.0, s.1, h) refl)

-- What a `pos_cfg_set` that says 0 has done.
pub set_done :
    (N : Nvs) (c : PosCfg N) (a t : ℤ)
    → (pos_cfg_set N c a t).1 ≡ true
    → (heights_valid a t ≡ true)
      × ((storage_write N c.storage pos_cfg_nvs_id (to_bytes (record_of N a t))).1 ≡ true)
      × ((pos_cfg_set N c a t).0 ≡ record {
        active = record { anchor_h_cm = a; tag_h_cm = t };
        storage = (storage_write N c.storage pos_cfg_nvs_id (to_bytes (record_of N a t))).0;
      })
unfolding pos_cfg_set
set_done N c a t h = ground arith

-- On a lawful storage that is mounted: heights that `pos_cfg_set` has taken with 0 are in effect at
-- once, and are the ones that `pos_cfg_init` loads after a reset, with 0, whatever was in RAM before.
pub init-set :
    (N : Nvs) (c c' : PosCfg N) (a t : ℤ)
    → IsLawful N
    → c.storage.fs_ready ≡ true
    → (pos_cfg_set N c a t).1 ≡ true
    → c'.storage ≡ (pos_cfg_set N c a t).0.storage
    → ((pos_cfg_set N c a t).0.active ≡ record { anchor_h_cm = a; tag_h_cm = t })
      × ((pos_cfg_init N c').1 ≡ true)
      × ((pos_cfg_init N c').0.active ≡ record { anchor_h_cm = a; tag_h_cm = t })
unfolding pos_cfg_init configure
init-set N c c' a t L ready h e =
    let d = set_done N c a t h in
    let found =
      read-storage_write N L c.storage ready pos_cfg_nvs_id (to_bytes (record_of N a t)) record_len
        d.1 in
    let stored = e ∙ ap (λ (x : PosCfg N). x.storage) d.2 in
    let given : accepted (storage_read N c'.storage pos_cfg_nvs_id record_len)
        ≡ some (record { anchor_h_cm = a; tag_h_cm = t }) =
      rw stored (rw found (accepted-record_of N a t d.0)) in
    (ap (λ (x : PosCfg N). x.active) d.2, rw given refl, rw given refl)

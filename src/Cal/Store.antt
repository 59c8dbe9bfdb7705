-- ===== src/Cal/Store.antt =====
-- src/cal.c, and the writers of src/cal_run.c: the active calibration over the stored record.
pub mod Reload
use tag_testting.Common.{ℕ, Bool, true, false, ◌&&◌, Option, none, some, List, ◌==◌, if◌then◌else◌}
use tag_testting.Storage.{Nvs, Storage, storage_read, storage_write, storage_delete}
use tag_testting.Cal.Record.{
  CalRecord, zeroed, record_len, to_bytes, from_bytes, finalize, is_record_valid,
}

abbrev pub cal_nvs_id : ℕ
cal_nvs_id = 1

-- `TX_ANT_DLY` and `RX_ANT_DLY`, the factory reference
abbrev pub tx_factory : ℕ
tx_factory = 16371

abbrev pub rx_factory : ℕ
rx_factory = 16371

-- The test of `cal_init` on what `storage_read` gave, for the PHY option of the image.
unfoldable pub loaded : Option (List ℕ × ℕ) → ℕ → Option CalRecord
loaded none phy = none
loaded (some (r, got)) phy =
    if got == record_len && is_record_valid (from_bytes r) phy then some (from_bytes r) else none

module _ (N : Nvs) where
  -- The statics `active` and `active_valid`, and the storage.
  pub record CalStore : Type 0 where
    pub active : CalRecord
    pub active_valid : Bool
    pub storage : Storage N

  -- `cal_init` after a reset, over the storage that is left.
  unfoldable pub cal_init : Storage N → ℕ → CalStore × Bool
  cal_init s phy = elim (loaded (storage_read N s cal_nvs_id record_len) phy) [
    | none ↦ (record { active = zeroed; active_valid = false; storage = s }, false)
    | some r ↦ (record { active = r; active_valid = true; storage = s }, true)
  ]

  -- `cal_get_ant_dly`
  unfoldable pub cal_get_ant_dly : CalStore → ℕ × ℕ
  cal_get_ant_dly c =
      if c.active_valid
      then (c.active.tx_ant_dly, c.active.rx_ant_dly)
      else (tx_factory, rx_factory)

  -- `cal_is_valid`
  unfoldable pub cal_is_valid : CalStore → Bool
  cal_is_valid c = c.active_valid

  -- `cal_internal_activate`
  unfoldable pub cal_internal_activate : CalStore → CalRecord → CalStore
  cal_internal_activate c r = record c { active = r; active_valid = true }

  -- `cal_internal_invalidate`
  unfoldable pub cal_internal_invalidate : CalStore → CalStore
  cal_internal_invalidate c = record c { active_valid = false }

  -- The record that `cal_store` writes.
  unfoldable pub record_of : ℕ → ℕ → ℕ → ℕ → ℕ → CalRecord
  record_of phy tx rx ref_mm residual_mm = finalize (record zeroed {
    phy_option = phy;
    tx_ant_dly = tx;
    rx_ant_dly = rx;
    ref_mm = ref_mm;
    residual_mm = residual_mm;
  })

  -- `cal_store`; true is its 0
  unfoldable pub cal_store : CalStore → ℕ → ℕ → ℕ → ℕ → ℕ → CalStore × Bool
  unfolding cal_internal_activate
  cal_store c phy tx rx ref_mm residual_mm =
      let r = record_of phy tx rx ref_mm residual_mm in
      let (storage', written) = storage_write N c.storage cal_nvs_id (to_bytes r) in
      let c' = record c { storage = storage' } in
      if written then (cal_internal_activate c' r, true) else (c', false)

-- ===== src/Cal/Store/Reload.antt =====
-- A calibration that was stored is the active one after a reset.
use tag_testting.Common.{
  ℕ, ◌^◌, ◌<◌, ◌≡◌, refl, sym, ◌∙◌, Bool, true, none, some, length, take, ◌==◌, if◌then◌else◌,
  arith,
}
use tag_testting.Storage.{Nvs, IsLawful, Storage, storage_read, storage_write}
use tag_testting.Storage.Laws.{read-storage_write}
use tag_testting.Cal.Record.{
  CalRecord, zeroed, record_len, to_bytes, finalize, is_record_valid, from_bytes-to_bytes,
  finalize-IsPacked, valid-finalize, IsPacked,
}
use tag_testting.Cal.Store.{
  CalStore, cal_nvs_id, tx_factory, rx_factory, loaded, cal_init, cal_get_ant_dly, cal_is_valid,
  record_of, cal_store, cal_internal_activate,
}

take-to_bytes : (r : CalRecord) → (take 24 (to_bytes r) ≡ to_bytes r) × (length (to_bytes r) ≡ 24)
unfolding to_bytes
take-to_bytes r = (refl, refl)

loaded-to_bytes :
    (r : CalRecord) (phy : ℕ)
    → IsPacked r
    → loaded (some (take 24 (to_bytes r), length (to_bytes r))) phy
      ≡ (if is_record_valid r phy then some r else none)
unfolding loaded
loaded-to_bytes r phy h =
    rw ((take-to_bytes r).0, (take-to_bytes r).1, from_bytes-to_bytes r h) (ground arith)

record_of-IsPacked :
    (N : Nvs) (phy tx rx ref_mm residual_mm : ℕ)
    → phy < 2 ^ 8
    → tx < 2 ^ 16
    → rx < 2 ^ 16
    → ref_mm < 2 ^ 32
    → residual_mm < 2 ^ 16
    → IsPacked (record_of N phy tx rx ref_mm residual_mm)
unfolding record_of
record_of-IsPacked N phy tx rx ref_mm residual_mm p t x f m =
    finalize-IsPacked
      (record zeroed {
        phy_option = phy;
        tx_ant_dly = tx;
        rx_ant_dly = rx;
        ref_mm = ref_mm;
        residual_mm = residual_mm;
      })
      p t x f m

valid-record_of :
    (N : Nvs) (phy tx rx ref_mm residual_mm other : ℕ)
    → is_record_valid (record_of N phy tx rx ref_mm residual_mm) other ≡ (phy == other)
unfolding record_of
valid-record_of N phy tx rx ref_mm residual_mm other =
    valid-finalize
      (record zeroed {
        phy_option = phy;
        tx_ant_dly = tx;
        rx_ant_dly = rx;
        ref_mm = ref_mm;
        residual_mm = residual_mm;
      })
      other

module _ (N : Nvs) (c : CalStore N) (phy tx rx ref_mm residual_mm : ℕ) where
  init-loaded :
      (s : Storage N) (r : CalRecord) (p : ℕ) (valid : Bool)
      → r.tx_ant_dly ≡ tx
      → r.rx_ant_dly ≡ rx
      → loaded (storage_read N s cal_nvs_id record_len) p ≡ (if valid then some r else none)
      → let (c', b) = cal_init N s p in
        (b ≡ valid)
        × (cal_is_valid N c' ≡ valid)
        × (cal_get_ant_dly N c' ≡ (if valid then (tx, rx) else (tx_factory, rx_factory)))
  unfolding cal_init cal_get_ant_dly cal_is_valid
  init-loaded s r p valid t x h = ground arith

  write-cal_store :
      let (s, written) =
        storage_write N c.storage cal_nvs_id
          (to_bytes (record_of N phy tx rx ref_mm residual_mm)) in
      ((cal_store N c phy tx rx ref_mm residual_mm).0.storage ≡ s)
      × ((cal_store N c phy tx rx ref_mm residual_mm).1 ≡ written)
  unfolding cal_store cal_internal_activate
  write-cal_store = ground arith

  load-stored :
      IsLawful N
      → c.storage.fs_ready ≡ true
      → IsPacked (record_of N phy tx rx ref_mm residual_mm)
      → (cal_store N c phy tx rx ref_mm residual_mm).1 ≡ true
      → (other : ℕ)
      → loaded
          (storage_read N
            (cal_store N c phy tx rx ref_mm residual_mm).0.storage
            cal_nvs_id
            record_len)
          other
        ≡ (if is_record_valid (record_of N phy tx rx ref_mm residual_mm) other
            then some (record_of N phy tx rx ref_mm residual_mm)
            else none)
  load-stored L ready packed h other =
      let r = record_of N phy tx rx ref_mm residual_mm in
      rw
        (
          write-cal_store.0,
          read-storage_write N L c.storage ready cal_nvs_id (to_bytes r) record_len
              (sym (write-cal_store.1) ∙ h),
        )
        (loaded-to_bytes r other packed)

  delays-record_of :
      ((record_of N phy tx rx ref_mm residual_mm).tx_ant_dly ≡ tx)
      × ((record_of N phy tx rx ref_mm residual_mm).rx_ant_dly ≡ rx)
  unfolding record_of finalize
  delays-record_of = (refl, refl)

  -- On a lawful storage that is mounted, for words: a `cal_store` that says 0 is what `cal_init` finds
  -- after a reset. An image of the same PHY option then has the stored delays as a valid calibration;
  -- an image of another one has no valid calibration and gives the factory delays.
  pub init-store :
      IsLawful N
      → c.storage.fs_ready ≡ true
      → phy < 2 ^ 8
      → tx < 2 ^ 16
      → rx < 2 ^ 16
      → ref_mm < 2 ^ 32
      → residual_mm < 2 ^ 16
      → (cal_store N c phy tx rx ref_mm residual_mm).1 ≡ true
      → (other : ℕ)
      → let (c', b) = cal_init N (cal_store N c phy tx rx ref_mm residual_mm).0.storage other in
        (b ≡ (phy == other))
        × (cal_is_valid N c' ≡ (phy == other))
        × (cal_get_ant_dly N c' ≡ (if phy == other then (tx, rx) else (tx_factory, rx_factory)))
  init-store L ready p t x f m h other =
      let r = record_of N phy tx rx ref_mm residual_mm in
      let packed = record_of-IsPacked N phy tx rx ref_mm residual_mm p t x f m in
      init-loaded (cal_store N c phy tx rx ref_mm residual_mm).0.storage r other (phy == other)
        delays-record_of.0 delays-record_of.1
        (load-stored L ready packed h other
          ∙ rw (valid-record_of N phy tx rx ref_mm residual_mm other))

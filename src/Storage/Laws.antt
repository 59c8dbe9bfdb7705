-- ===== src/Storage/Laws.antt =====
-- What the mounted storage inherits from the flash.
use tag_testting.Common.{ℕ, ◌≡◌, ◌≢◌, true, none, some, List, length, take, arith}
use tag_testting.Storage.{Nvs, IsLawful, Storage, storage_read, storage_write, storage_delete}

module _ (N : Nvs) (L : IsLawful N) (s : Storage N) (ready : s.fs_ready ≡ true) (id : ℕ) where
  pub read-storage_write :
      (item : List ℕ) (len : ℕ)
      → (storage_write N s id item).1 ≡ true
      → storage_read N (storage_write N s id item).0 id len ≡ some (take len item, length item)
  unfolding storage_read storage_write
  read-storage_write item len h = ground (arith, L.read-write s.fs id item)

  pub read-storage_write_ne :
      (other len : ℕ) (item : List ℕ)
      → other ≢ id
      → storage_read N (storage_write N s id item).0 other len ≡ storage_read N s other len
  unfolding storage_read storage_write
  read-storage_write_ne other len item h = ground (arith, L.read-write_ne s.fs id other item h)

  pub read-storage_delete :
      (len : ℕ)
      → (storage_delete N s id).1 ≡ true
      → storage_read N (storage_delete N s id).0 id len ≡ none
  unfolding storage_read storage_delete
  read-storage_delete len h = ground (arith, L.read-delete s.fs id)

  pub storage_write-ready : (item : List ℕ) → (storage_write N s id item).0.fs_ready ≡ true
  unfolding storage_write
  storage_write-ready item = ground arith

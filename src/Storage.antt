-- ===== src/Storage.antt =====
-- src/storage.c: the application's access to Zephyr's non-volatile storage (NVS), which is a
-- parameter here.
pub mod Memory
pub mod Laws
use tag_testting.Common.{
  ℕ, ◌≡◌, ◌≢◌, Bool, true, false, Option, none, some, List, if◌then◌else◌, length, take,
}

-- `nvs_read`, `nvs_write` and `nvs_delete` over the mounted file system. A read gives the whole item
-- of an id; a write or a delete says whether it succeeded.
pub record Nvs : Type 1 where
  pub Flash : Type 0
  pub nvs_read : Flash → ℕ → Option (List ℕ)
  pub nvs_write : Flash → ℕ → List ℕ → Flash × Bool
  pub nvs_delete : Flash → ℕ → Flash × Bool

-- What NVS documents: a write that succeeds is read back, a delete that succeeds leaves nothing, and
-- neither touches another id.
pub record IsLawful (N : Nvs) : Type 0 where
  pub read-write :
      (f : N.Flash) (id : ℕ) (item : List ℕ)
      → (N.nvs_write f id item).1 ≡ true
      → N.nvs_read (N.nvs_write f id item).0 id ≡ some item
  pub read-write_ne :
      (f : N.Flash) (id other : ℕ) (item : List ℕ)
      → other ≢ id
      → N.nvs_read (N.nvs_write f id item).0 other ≡ N.nvs_read f other
  pub read-delete :
      (f : N.Flash) (id : ℕ)
      → (N.nvs_delete f id).1 ≡ true
      → N.nvs_read (N.nvs_delete f id).0 id ≡ none

module _ (N : Nvs) where
  open N use {Flash, nvs_read, nvs_write, nvs_delete}

  -- The static `fs` and `fs_ready`.
  pub record Storage : Type 0 where
    pub fs : Flash
    pub fs_ready : Bool

  -- `storage_init`, whose device, page and mount calls succeed or not; true is its 0.
  unfoldable pub storage_init : Storage → Bool → Bool → Bool → Storage × Bool
  storage_init s device_ready page_found mounted =
      if device_ready
      then (if page_found
          then (if mounted then (record s { fs_ready = true }, true) else (s, false))
          else (s, false))
      else (s, false)

  -- `storage_read` into a buffer of `len` bytes: the bytes that arrive and the count that is returned,
  -- or `none` for a negative `errno`.
  unfoldable pub storage_read : Storage → ℕ → ℕ → Option (List ℕ × ℕ)
  storage_read s id len =
      if s.fs_ready
      then elim (nvs_read s.fs id) [ none ↦ none | some item ↦ some (take len item, length item) ]
      else none

  -- `storage_write`; true is a result that is not negative.
  unfoldable pub storage_write : Storage → ℕ → List ℕ → Storage × Bool
  storage_write s id item =
      if s.fs_ready
      then (record s { fs = (nvs_write s.fs id item).0 }, (nvs_write s.fs id item).1)
      else (s, false)

  -- `storage_delete`; true is its 0.
  unfoldable pub storage_delete : Storage → ℕ → Storage × Bool
  storage_delete s id =
      if s.fs_ready
      then (record s { fs = (nvs_delete s.fs id).0 }, (nvs_delete s.fs id).1)
      else (s, false)

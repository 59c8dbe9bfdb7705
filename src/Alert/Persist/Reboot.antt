-- ===== src/Alert/Persist/Reboot.antt =====
-- What of an alert survives a reset.
use tag_testting.Common.{
  ℕ, ◌≡◌, ◌≢◌, ap, Option, ◌∙◌, Bool, true, not, some, List, [], ◌∷◌, if◌then◌else◌, take, length,
  arith, ◌==◌,
}
use tag_testting.Storage.{Nvs, IsLawful, Storage, storage_read, storage_write}
use tag_testting.Storage.Laws.{read-storage_write, storage_write-ready}
use tag_testting.Alert.Core.{
  AlertState, off, help, cancelling, is_off, is_help, raise, cancel, due, sent,
}
use tag_testting.Alert.Persist.{
  TagAlert, alert_nvs_id, alert_record_crc, nvs_record, active_byte, restore, boot_core,
  alert_persist_locked, tag_alert_init, tag_alert_raise, tag_alert_cancel, tag_alert_frame_due,
  tag_alert_sent,
}

restore-nvs_record :
    (epoch active : ℕ) → restore (some (nvs_record epoch active, 4)) ≡ (epoch, not (active == 0))
unfolding restore nvs_record alert_record_crc
restore-nvs_record epoch active = ground arith

found_written :
    (epoch : ℕ) (s : AlertState)
    → restore (
        some (take 4 (nvs_record epoch (active_byte s)), length (nvs_record epoch (active_byte s))))
      ≡ (epoch, is_help s)
unfolding nvs_record
found_written epoch s = restore-nvs_record epoch (active_byte s) ∙ ground arith

-- An alert is under way.
abbrev pub underway : AlertState → Bool
underway s = not (is_off s)

underway_lem : (s : AlertState) → s ≢ cancelling → is_help s ≡ underway s
underway_lem s h = ground arith

-- One call of the module.
pub data AlertOp : Type 0 where
  raises cancels sends : ℕ → AlertOp
  asks : ℕ → ℕ → ℕ → Option (ℕ × ℕ) → AlertOp

module _ (N : Nvs) where
  -- What a reset would find.
  abbrev pub found : Storage N → ℕ × Bool
  found s = restore (storage_read N s alert_nvs_id 4)

  -- The storage names the tag's epoch, and whether an alert is under way.
  pub record Mirrors (t : TagAlert N) : Type 0 where
    pub mounted : t.storage.fs_ready ≡ true
    pub epoch_stored : (found t.storage).0 ≡ t.core.epoch
    pub active_stored : (found t.storage).1 ≡ underway t.core.state

  pub boot-Mirrors :
      (s : Storage N) (eui : List ℕ) → s.fs_ready ≡ true → Mirrors (tag_alert_init N s eui)
  unfolding tag_alert_init boot_core
  boot-Mirrors s eui h = ground arith

  -- Every write succeeds.
  abbrev pub Writes : Type 0
  Writes = (f : N.Flash) (id : ℕ) (item : List ℕ) → (N.nvs_write f id item).1 ≡ true

  write-true :
      (s : Storage N) (id : ℕ) (item : List ℕ)
      → s.fs_ready ≡ true
      → Writes
      → (storage_write N s id item).1 ≡ true
  unfolding storage_write
  write-true s id item h w = ground (arith, w s.fs id item)

  found-persist :
      IsLawful N
      → Writes
      → (t : TagAlert N) → t.storage.fs_ready ≡ true
      → found (alert_persist_locked N t).storage ≡ (t.core.epoch, is_help t.core.state)
  unfolding alert_persist_locked
  found-persist L w t h =
      let item = nvs_record t.core.epoch (active_byte t.core.state) in
      rw
        (read-storage_write N L t.storage h alert_nvs_id item 4
          (write-true t.storage alert_nvs_id item h w))
        (found_written t.core.epoch t.core.state)

  ready-persist :
      IsLawful N
      → (t : TagAlert N) → t.storage.fs_ready ≡ true
      → (alert_persist_locked N t).storage.fs_ready ≡ true
  unfolding alert_persist_locked
  ready-persist L t h =
      storage_write-ready N L t.storage h alert_nvs_id
        (nvs_record t.core.epoch (active_byte t.core.state))

  persist-Mirrors :
      IsLawful N
      → Writes
      → (t : TagAlert N) → t.storage.fs_ready ≡ true
      → t.core.state ≢ cancelling
      → Mirrors (alert_persist_locked N t)
  unfolding alert_persist_locked
  persist-Mirrors L w t h c =
      let kept = found-persist L w t h in
      record {
        mounted = ready-persist L t h;
        epoch_stored = ap (λ p. p.0) kept;
        active_stored = ap (λ p. p.1) kept ∙ underway_lem t.core.state c;
      }

  pub raise-Mirrors :
      IsLawful N
      → Writes
      → (t : TagAlert N) (now : ℕ) → Mirrors t
      → Mirrors (tag_alert_raise N t now)
  unfolding tag_alert_raise raise
  raise-Mirrors L w t now m =
      ground (arith, persist-Mirrors L w (record t { core = (raise t.core now).0 }))

  pub cancel-Mirrors : (t : TagAlert N) (now : ℕ) → Mirrors t → Mirrors (tag_alert_cancel N t now)
  unfolding tag_alert_cancel cancel
  cancel-Mirrors t now m = ground arith

  due-Mirrors :
      (t : TagAlert N) (addr now soc : ℕ) (pos : Option (ℕ × ℕ))
      → Mirrors t
      → Mirrors (tag_alert_frame_due N t addr now soc pos).0
  unfolding tag_alert_frame_due due
  due-Mirrors t addr now soc pos m = ground arith

  sent-Mirrors :
      IsLawful N
      → Writes
      → (t : TagAlert N) (now : ℕ) → Mirrors t
      → Mirrors (tag_alert_sent N t now)
  unfolding tag_alert_sent sent
  sent-Mirrors L w t now m =
      ground (arith, persist-Mirrors L w (record t { core = sent t.core now }))

  unfoldable pub apply_op : TagAlert N → AlertOp → TagAlert N
  apply_op t (raises now) = tag_alert_raise N t now
  apply_op t (cancels now) = tag_alert_cancel N t now
  apply_op t (sends now) = tag_alert_sent N t now
  apply_op t (asks addr now soc pos) = (tag_alert_frame_due N t addr now soc pos).0

  -- The calls in order.
  unfoldable pub run_ops : TagAlert N → List AlertOp → TagAlert N
  unfolding apply_op
  run_ops t [] = t
  run_ops t (op ∷ ops) = run_ops (apply_op t op) ops

  apply_op-Mirrors :
      IsLawful N → Writes → (t : TagAlert N) (op : AlertOp) → Mirrors t → Mirrors (apply_op t op)
  unfolding apply_op
  apply_op-Mirrors L w t (raises now) m = raise-Mirrors L w t now m
  apply_op-Mirrors L w t (cancels now) m = cancel-Mirrors t now m
  apply_op-Mirrors L w t (sends now) m = sent-Mirrors L w t now m
  apply_op-Mirrors L w t (asks addr now soc pos) m = due-Mirrors t addr now soc pos m

  run_ops-Mirrors :
      IsLawful N
      → Writes
      → (t : TagAlert N) (ops : List AlertOp) → Mirrors t
      → Mirrors (run_ops t ops)
  unfolding run_ops
  run_ops-Mirrors L w t [] m = m
  run_ops-Mirrors L w t (op ∷ ops) m =
      run_ops-Mirrors L w (apply_op t op) ops (apply_op-Mirrors L w t op m)

  pub reset-Mirrors :
      (t : TagAlert N) (eui : List ℕ)
      → Mirrors t
      → let t' = tag_alert_init N t.storage eui in
        (t'.core.epoch ≡ t.core.epoch)
        × (t'.core.state ≡ (if underway t.core.state then help else off))
        × (t'.core.next_tx_ms ≡ 0)
  unfolding tag_alert_init boot_core
  reset-Mirrors t eui m = ground arith

  -- On a flash that takes every write: whatever calls are made from one reset to the next, the tag
  -- comes back with the epoch that it had, calling for help again if an alert was under way, also one
  -- whose cancel had not been sent out in full, and otherwise silent.
  pub alert_survives_reset :
      IsLawful N
      → Writes
      → (s : Storage N) (eui : List ℕ) (ops : List AlertOp) → s.fs_ready ≡ true
      → let t = run_ops (tag_alert_init N s eui) ops in
        let t' = tag_alert_init N t.storage eui in
        (t'.core.epoch ≡ t.core.epoch)
        × (t'.core.state ≡ (if underway t.core.state then help else off))
        × (t'.core.next_tx_ms ≡ 0)
  alert_survives_reset L w s eui ops h =
      let t = run_ops (tag_alert_init N s eui) ops in
      reset-Mirrors t eui (run_ops-Mirrors L w (tag_alert_init N s eui) ops (boot-Mirrors s eui h))
